-- ===== src/Builder/Choices.antt =====
-- builder.tsx and frontend/src/components/utils/stage_item_input.tsx: the choices for the inputs of a
-- stage, from the options that the server offers, and the key of the choice that an input has.
pub mod Keys
mod Tests
use Prim.Native.String.{String}
use bracket.Base.{
  ℕ, zero, suc, ◌≡◌, refl, sym, ap, ◌∙◌, Bool, true, false, List, [], ◌∷◌, ◌++◌, Option, none, some,
  arith, inl, inr, Bool-cases, Option-cases, ◌==◌, ==_iff, if◌then◌else◌, map, All, All-map,
  All-append,
}
use bracket.Base.Store.{get, put_all}
use bracket.Requests.{Segment, word, number}
use bracket.Builder.{StageItemInputChoice, StageItemInput, StageItem, Stage}

pub record Team : Type 0 where
  pub id : ℕ
  pub name : String
  pub level_id : Option ℕ

pub data StageItemInputOption : Type 0 where
  tentative : (winner_from_stage_item_id winner_position : ℕ) → Bool → StageItemInputOption
  final : ℕ → Bool → StageItemInputOption

pub get_position_name : ℕ → List Segment
get_position_name position =
    if position == 1
    then word "1st" ∷ []
    else if position == 2
    then word "2nd" ∷ []
    else if position == 3
    then word "3rd" ∷ []
    else number position ∷ word "th" ∷ []

module _ (stage_item_map : List (ℕ × StageItem)) where
  -- The two assertions hold by the types of the fields.
  pub format_stage_item_input_tentative : ℕ → ℕ → List Segment
  unfolding get get_position_name
  format_stage_item_input_tentative winner_from_stage_item_id winner_position =
      get_position_name winner_position
      ++ word " of " ∷ elim (get winner_from_stage_item_id stage_item_map) [
        | none ↦ word "stage item " ∷ number winner_from_stage_item_id ∷ []
        | some item ↦ word item.name ∷ []
      ]

  module _ (teams_map : List (ℕ × Team)) where
    -- `getComboBoxOptionForStageItemInput`
    pub choice_of : StageItemInputOption → Option StageItemInputChoice
    unfolding get format_stage_item_input_tentative
    choice_of (tentative stage_item_id position taken) = elim (get stage_item_id stage_item_map) [
      | none ↦ none
      | some item ↦ some (record {
        value = number stage_item_id ∷ word "_" ∷ number position ∷ [];
        label = some (format_stage_item_input_tentative stage_item_id position);
        team_id = none;
        winner_from_stage_item_id = some stage_item_id;
        winner_position = some position;
        already_taken = taken;
        team_level_id = none;
      })
    ]
    choice_of (final team_id taken) = elim (get team_id teams_map) [
      | none ↦ none
      | some team ↦ some (record {
        value = number team_id ∷ [];
        label = some (word team.name ∷ []);
        team_id = some team.id;
        winner_from_stage_item_id = none;
        winner_position = none;
        already_taken = taken;
        team_level_id = team.level_id;
      })
    ]

    pub choices_of : List StageItemInputOption → List StageItemInputChoice
    unfolding choice_of
    choices_of [] = []
    choices_of (option ∷ options) =
        let rest = choices_of options in
        elim (choice_of option) [ none ↦ rest | some choice ↦ choice ∷ rest ]

    pub get_available_inputs :
        Option (List (ℕ × List StageItemInputOption)) → List (ℕ × List StageItemInputChoice)
    unfolding choices_of
    get_available_inputs none = []
    get_available_inputs (some data_) =
        put_all [] (map (λ entry. (entry.0, choices_of entry.1)) data_)

    -- The choice of no team.
    abbrev pub no_choice : StageItemInputChoice
    no_choice = record {
      value = word "null" ∷ [];
      label = none;
      team_id = none;
      winner_from_stage_item_id = none;
      winner_position = none;
      already_taken = false;
      team_level_id = none;
    }

    abbrev or_empty : Option (List StageItemInputChoice) → List StageItemInputChoice
    or_empty none = []
    or_empty (some choices) = choices

    -- `StageColumn`: the available inputs of a stage, and no team.
    pub stage_choices :
        Option (List (ℕ × List StageItemInputOption)) → Stage → List StageItemInputChoice
    unfolding get_available_inputs get
    stage_choices response stage =
        or_empty (get stage.id (get_available_inputs response)) ++ no_choice ∷ []

-- `StageItemRow`: the key of the choice that an input has. A missing position is printed as `null`.
pub current_option_value : StageItemInput → Option (List Segment)
current_option_value input = elim input.winner_from_stage_item_id [
  | none ↦ elim input.team_id [ none ↦ none | some team_id ↦ some (number team_id ∷ []) ]
  | some stage_item_id ↦ some (
      number stage_item_id ∷ word "_" ∷ elim input.winner_position [
        | none ↦ word "null" ∷ []
        | some position ↦ number position ∷ []
      ])
]
