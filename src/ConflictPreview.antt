-- ===== src/ConflictPreview.antt =====
-- frontend/src/logic/planning/conflict_preview.ts: the places and the swaps that would introduce a
-- conflict, found by simulation. A set is the list of its elements in the order of their insertion,
-- and the key of an insertion line is the pair that its text spells.
pub mod Introduces
pub mod Loops
pub mod Exact
pub mod Tests
use bracket.Base.{
  ℕ, suc, Bool, true, false, not, ◌&&◌, List, [], ◌∷◌, ◌++◌, Option, none, some, ◌==◌,
  if◌then◌else◌, any,
}
use bracket.Base.Int.{ℤ}
use bracket.Base.Store.{get}
use bracket.Conflicts.{ConflictStage}
use bracket.Conflicts.Flags.{
  FlagKey, input1, input2, precedence, feeder_precedence, short_break, referee_key, round_order,
  read, Flags, flag_of, Result, ok, throws, ◌>>=◌,
}
use bracket.Conflicts.Compute.{everything, compute_conflict_flags}
use bracket.Layout.{
  CourtTimeline, InsertionLine, MatchBlock, ScheduleGridLayout, compute_insertion_lines,
}
use bracket.Optimistic.{apply_planning_actions}
use bracket.Selection.{
  PlanningAction, SelectionState, SelectionTransition, move_mode, idle, active, confirm_move,
  match_selected, tray_match_selected, tap_insertion_line, tap_match, selection_reducer,
}

pub record ConflictPreview : Type 0 where
  pub insertion_lines : List (ℕ × ℕ)
  pub swap_targets : List ℕ

abbrev pub empty_preview : ConflictPreview
empty_preview = record { insertion_lines = []; swap_targets = [] }

abbrev pub conflict_flag_keys : List FlagKey
conflict_flag_keys =
    input1 ∷ input2 ∷ precedence ∷ feeder_precedence ∷ short_break ∷ referee_key ∷ round_order ∷ []

pub get_selected_match_id : SelectionState → Option ℕ
get_selected_match_id idle = none
get_selected_match_id (active (match_selected m)) = some m.match_id
get_selected_match_id (active (tray_match_selected id)) = some id
get_selected_match_id (confirm_move s action) = none

stashed : SelectionState → List PlanningAction
stashed idle = []
stashed (active s) = []
stashed (confirm_move s action) = action ∷ []

pub transition_actions : SelectionTransition → List PlanningAction
unfolding stashed
transition_actions t = elim t.actions [ [] ↦ stashed t.state | a ∷ rest ↦ a ∷ rest ]

abbrev pub has_line : ConflictPreview → ℕ → ℕ → Bool
has_line preview court_id index =
    any (λ line. line.0 == court_id && line.1 == index) preview.insertion_lines

abbrev pub has_target : ConflictPreview → ℕ → Bool
has_target preview match_id = any (λ id. id == match_id) preview.swap_targets

-- `preview.insertionLines.add(…)`
pub add_line : ℕ → ℕ → ConflictPreview → ConflictPreview
add_line court_id index preview =
    if has_line preview court_id index
    then preview
    else record preview { insertion_lines = preview.insertion_lines ++ (court_id, index) ∷ [] }

-- `preview.swapTargets.add(…)`
pub add_target : ℕ → ConflictPreview → ConflictPreview
add_target match_id preview =
    if has_target preview match_id
    then preview
    else record preview { swap_targets = preview.swap_targets ++ match_id ∷ [] }

-- The entries of a map are its keys, each with the value that it has there.
pub introduced : Flags → Flags → Bool
unfolding get read
introduced baseline post_flags =
    any
      (λ entry.
        any (λ key. flag_of post_flags entry.0 key && not (flag_of baseline entry.0 key))
          conflict_flag_keys)
      post_flags

module _ (stages : List ConflictStage) (default_break_minutes : ℕ) (tournament_start : ℤ)
    (referees_enabled : Bool) where
  pub actions_introduce_conflict : Flags → List PlanningAction → Result Bool
  unfolding introduced compute_conflict_flags apply_planning_actions
  actions_introduce_conflict baseline [] = ok false
  actions_introduce_conflict baseline (a ∷ actions) = do
    post_flags ←
        compute_conflict_flags
          (apply_planning_actions tournament_start default_break_minutes stages (a ∷ actions))
          default_break_minutes everything referees_enabled
    ok (introduced baseline post_flags)

module _ (introduces_conflict : List PlanningAction → Result Bool)
    (selection : SelectionState) where
  pub mark_lines : ℕ → List InsertionLine → ConflictPreview → Result ConflictPreview
  unfolding add_line transition_actions selection_reducer
  mark_lines court_id [] preview = ok preview
  mark_lines court_id (line ∷ lines) preview = do
    found ← introduces_conflict (
        transition_actions
          (selection_reducer selection (tap_insertion_line court_id line.index) move_mode))
    mark_lines court_id lines (if found then add_line court_id line.index preview else preview)

  -- The references of the preview do not say whether the match is played or locked.
  pub mark_targets : ℕ → ℕ → List MatchBlock → ConflictPreview → Result ConflictPreview
  unfolding add_target transition_actions selection_reducer
  mark_targets court_id position [] preview = ok preview
  mark_targets court_id position (block ∷ blocks) preview = do
    found ← introduces_conflict (
        transition_actions (
          selection_reducer selection
            (tap_match (record {
              match_id = block.match_ref.id;
              court_id = court_id;
              position = position;
              played = none;
              locked = none;
            }))
            move_mode))
    mark_targets court_id (suc position) blocks
        (if found then add_target block.match_ref.id preview else preview)

  pub mark_courts : List CourtTimeline → ConflictPreview → Result ConflictPreview
  unfolding mark_lines mark_targets compute_insertion_lines
  mark_courts [] preview = ok preview
  mark_courts (timeline ∷ timelines) preview = do
    with_lines ← mark_lines timeline.court.id (compute_insertion_lines timeline.blocks) preview
    with_targets ← mark_targets timeline.court.id 0 timeline.blocks with_lines
    mark_courts timelines with_targets

pub compute_conflict_preview :
    List ConflictStage → ScheduleGridLayout → SelectionState → ℤ → Bool → Result ConflictPreview
unfolding get_selected_match_id actions_introduce_conflict mark_courts
compute_conflict_preview stages layout selection tournament_start referees_enabled =
    elim (get_selected_match_id selection) [
      | none ↦ ok empty_preview
      | some _ ↦ do
        baseline ←
            compute_conflict_flags stages layout.default_break_minutes everything referees_enabled
        mark_courts
            (actions_introduce_conflict stages layout.default_break_minutes tournament_start
              referees_enabled baseline)
            selection layout.courts empty_preview
    ]
