-- ===== src/Builder.antt =====
-- frontend/src/components/builder/builder.tsx: `StageColumn.autoAssignTeams` and the choices for the
-- inputs of a stage. A template text is the list of its parts. `sort` by a random comparison is a
-- parameter, a shuffle of the list.
pub mod Choices
pub mod Assigned
mod Tests
use Prim.Native.String.{String}
use bracket.Requests.{Segment}
use bracket.Base.{
  ℕ, zero, suc, ◌+◌, ◌≡◌, Bool, not, ◌&&◌, ◌||◌, List, [], ◌∷◌, Option, none, some, is_some, opt_eq,
  filter, flat_map, length, map, take, get_elem?,
}

pub record StageItemInputChoice : Type 0 where
  pub value : List Segment
  pub label : Option (List Segment)
  pub team_id : Option ℕ
  pub winner_from_stage_item_id : Option ℕ
  pub winner_position : Option ℕ
  pub already_taken : Bool
  pub team_level_id : Option ℕ

-- The fields of the stages that are read.
pub record StageItemInput : Type 0 where
  pub id : ℕ
  pub team_id : Option ℕ
  pub winner_from_stage_item_id : Option ℕ
  pub winner_position : Option ℕ

pub record StageItem : Type 0 where
  pub id : ℕ
  pub name : String
  pub inputs : List StageItemInput

pub record Stage : Type 0 where
  pub id : ℕ
  pub level_id : Option ℕ
  pub stage_items : List StageItem

pub record EmptyInput : Type 0 where
  pub stage_item_id : ℕ
  pub input_id : ℕ

-- The arguments of `updateStageItemInput` that are not fixed.
pub record InputUpdate : Type 0 where
  pub input : EmptyInput
  pub team_id : Option ℕ

abbrev pub is_empty : StageItemInput → Bool
is_empty input = not (is_some input.team_id) && not (is_some input.winner_from_stage_item_id)

pub empty_inputs : List StageItem → List EmptyInput
empty_inputs = flat_map λ item.
    map (λ input. record { stage_item_id = item.id; input_id = input.id })
      (filter is_empty item.inputs)

-- The test of `candidates`, for the level of the stage.
abbrev pub is_candidate : Option ℕ → StageItemInputChoice → Bool
is_candidate level_id opt =
    is_some opt.team_id
    && not opt.already_taken
    && (not (is_some level_id) || opt_eq opt.team_level_id level_id)

-- `shuffled[i].team_id` throws behind the end of the list, which is `none`.
pub updates_from : List StageItemInputChoice → ℕ → List EmptyInput → Option (List InputUpdate)
updates_from shuffled i [] = some []
updates_from shuffled i (input ∷ inputs) =
    let rest = updates_from shuffled (suc i) inputs in
    elim (get_elem? shuffled i) [
      | none ↦ none
      | some choice ↦ elim rest [
        | none ↦ none
        | some updates ↦ some (record { input = input; team_id = choice.team_id } ∷ updates)
      ]
    ]

module _ (shuffle : List StageItemInputChoice → List StageItemInputChoice) where
  -- The updates that are sent to the server.
  pub auto_assign_teams : Stage → List StageItemInputChoice → Option (List InputUpdate)
  unfolding empty_inputs updates_from
  auto_assign_teams stage available_inputs =
      let candidates = filter (is_candidate stage.level_id) available_inputs in
      let shuffled = shuffle candidates in
      updates_from shuffled 0 (take (length shuffled) (empty_inputs stage.stage_items))
