-- ===== src/Selection.antt =====
-- frontend/src/logic/planning/selection.ts and move_confirmation.ts: the tap-to-place selection
-- machine of the planning grid. Ids and positions are natural numbers.
pub mod Confirm
pub mod Placing
mod Tests
use bracket.Base.{
  ℕ, ◌+◌, ◌-◌, ◌≡◌, Bool, true, false, ◌&&◌, ◌||◌, List, [], ◌∷◌, Option, none, some, ltb, ◌==◌,
  if◌then◌else◌, is_true,
}

-- `Pick<GridMatchRef, 'played' | 'locked'>`: both marks are optional.
pub record MoveSubject : Type 0 where
  pub played : Option Bool
  pub locked : Option Bool

pub record GridMatchRef : Type 0 where
  pub match_id : ℕ
  pub court_id : ℕ
  pub position : ℕ
  pub played : Option Bool
  pub locked : Option Bool

abbrev pub subject : GridMatchRef → MoveSubject
subject m = record { played = m.played; locked = m.locked }

pub data MoveDestination : Type 0 where
  free_slot : MoveDestination
  swap_with : MoveSubject → MoveDestination

pub needs_move_confirmation : MoveSubject → MoveDestination → Bool
needs_move_confirmation moved free_slot = is_true moved.played
needs_move_confirmation moved (swap_with target) =
    if is_true moved.played
    then true
    else is_true moved.locked || is_true target.locked || is_true target.played

pub record RescheduleBody : Type 0 where
  pub old_court_id : Option ℕ
  pub old_position : Option ℕ
  pub new_court_id : ℕ
  pub new_position : ℕ

pub data PlanningAction : Type 0 where
  reschedule : ℕ → RescheduleBody → PlanningAction
  swap : (match_id1 match_id2 : ℕ) → PlanningAction
  unschedule : ℕ → PlanningAction
  resize_break : (match_id new_duration_minutes : ℕ) → PlanningAction
  open_details : ℕ → PlanningAction

pub data ActiveSelectionState : Type 0 where
  match_selected : GridMatchRef → ActiveSelectionState
  tray_match_selected : ℕ → ActiveSelectionState

-- The source's union lists the two active states beside the others; here they stand under `active`.
pub data SelectionState : Type 0 where
  idle : SelectionState
  active : ActiveSelectionState → SelectionState
  confirm_move : ActiveSelectionState → PlanningAction → SelectionState

pub data SelectionEvent : Type 0 where
  tap_match : GridMatchRef → SelectionEvent
  tap_tray_match : ℕ → SelectionEvent
  tap_insertion_line : (court_id index : ℕ) → SelectionEvent
  unschedule_selected : SelectionEvent
  confirm : SelectionEvent
  cancel : SelectionEvent

pub data PlannerMode : Type 0 where
  move_mode unschedule_mode edit_mode : PlannerMode

pub record SelectionTransition : Type 0 where
  pub state : SelectionState
  pub actions : List PlanningAction

abbrev pub stay : SelectionState → SelectionTransition
stay s = record { state = s; actions = [] }

-- The transition that clears the selection and emits one action.
abbrev pub emit : PlanningAction → SelectionTransition
emit a = record { state = idle; actions = a ∷ [] }

unfoldable pub place : GridMatchRef → ℕ → ℕ → SelectionTransition
place selected court_id index =
    let same_court : Bool = court_id == selected.court_id in
    if same_court && (index == selected.position || index == selected.position + 1)
    then stay idle
    else emit (
        reschedule selected.match_id (record {
          old_court_id = some selected.court_id;
          old_position = some selected.position;
          new_court_id = court_id;
          new_position = if same_court && ltb selected.position index then index - 1 else index;
        }))

pub place_from_tray : ℕ → ℕ → ℕ → SelectionTransition
place_from_tray match_id court_id index = emit (
    reschedule match_id (record {
      old_court_id = none;
      old_position = none;
      new_court_id = court_id;
      new_position = index;
    }))

-- The source's `swap(selectedMatchId, targetMatchId)`.
abbrev pub swap_matches : ℕ → ℕ → SelectionTransition
swap_matches selected_match_id target_match_id = emit (swap selected_match_id target_match_id)

confirm_first :
    ActiveSelectionState → Bool → PlanningAction → SelectionTransition → SelectionTransition
confirm_first previous needed action t = if needed then stay (confirm_move previous action) else t

pub confirm_or_perform :
    ActiveSelectionState → MoveSubject → MoveDestination → SelectionTransition → SelectionTransition
unfolding confirm_first
confirm_or_perform previous moved destination transition = elim transition.actions [
  | [] ↦ transition
  | action ∷ _ ↦
      confirm_first previous (needs_move_confirmation moved destination) action transition
]

idle_tap_match : GridMatchRef → PlannerMode → SelectionTransition
idle_tap_match m unschedule_mode =
    if is_true m.locked || is_true m.played then stay idle else emit (unschedule m.match_id)
idle_tap_match m edit_mode = emit (open_details m.match_id)
idle_tap_match m move_mode = stay (active (match_selected m))

idle_tap_tray_match : ℕ → PlannerMode → SelectionTransition
idle_tap_tray_match match_id edit_mode = emit (open_details match_id)
idle_tap_tray_match match_id _ = stay (active (tray_match_selected match_id))

unfoldable pub selection_reducer :
    SelectionState → SelectionEvent → PlannerMode → SelectionTransition
unfolding idle_tap_match idle_tap_tray_match confirm_or_perform needs_move_confirmation place
    place_from_tray
selection_reducer idle (tap_match m) mode = idle_tap_match m mode
selection_reducer idle (tap_tray_match match_id) mode = idle_tap_tray_match match_id mode
selection_reducer idle _ mode = stay idle
selection_reducer (active (match_selected s)) cancel mode = stay idle
selection_reducer (active (match_selected s)) (tap_match m) mode =
    if m.match_id == s.match_id
    then stay idle
    else confirm_or_perform (match_selected s) (subject s) (swap_with (subject m))
        (swap_matches s.match_id m.match_id)
selection_reducer (active (match_selected s)) (tap_tray_match match_id) mode =
    swap_matches s.match_id match_id
selection_reducer (active (match_selected s)) (tap_insertion_line court_id index) mode =
    confirm_or_perform (match_selected s) (subject s) free_slot (place s court_id index)
selection_reducer (active (match_selected s)) unschedule_selected mode =
    emit (unschedule s.match_id)
selection_reducer (active (match_selected s)) confirm mode = stay (active (match_selected s))
selection_reducer (active (tray_match_selected t)) cancel mode = stay idle
selection_reducer (active (tray_match_selected t)) (tap_match m) mode =
    confirm_or_perform (tray_match_selected t) (record { played = none; locked = none })
      (swap_with (subject m)) (swap_matches t m.match_id)
selection_reducer (active (tray_match_selected t)) (tap_tray_match match_id) mode =
    if match_id == t then stay idle else stay (active (tray_match_selected match_id))
selection_reducer (active (tray_match_selected t)) (tap_insertion_line court_id index) mode =
    place_from_tray t court_id index
selection_reducer (active (tray_match_selected t)) unschedule_selected mode =
    stay (active (tray_match_selected t))
selection_reducer (active (tray_match_selected t)) confirm mode =
    stay (active (tray_match_selected t))
selection_reducer (confirm_move previous action) confirm mode = emit action
selection_reducer (confirm_move previous action) cancel mode = stay (active previous)
selection_reducer (confirm_move previous action) _ mode = stay (confirm_move previous action)
