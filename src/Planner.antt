-- ===== src/Planner.antt =====
-- frontend/src/logic/planning/selection.ts: `plannerReducer`, the selection machine together with
-- the zoom level and the mode. `F` is the type of the scroll fractions, which are only passed on.
pub mod Modes
pub mod Effects
mod Tests
use bracket.Base.{
  ◌≡◌, ℕ, Bool, ◌&&◌, true, false, not, List, [], ◌∷◌, Option, none, some, if◌then◌else◌,
}
use bracket.Zoom.{ZoomLevel, agenda, compact, overview, zoom_eq, zoom_in, zoom_out}
use bracket.Selection.{
  PlanningAction, resize_break, SelectionState, idle, active, confirm_move, SelectionEvent,
  tap_match, tap_tray_match, tap_insertion_line, unschedule_selected, confirm, cancel, PlannerMode,
  move_mode, SelectionTransition, selection_reducer,
}

pub record PlannerState : Type 0 where
  pub zoom : ZoomLevel
  pub mode : PlannerMode
  pub selection : SelectionState

pub initial_planner_state : ZoomLevel → PlannerState
initial_planner_state zoom = record { zoom = zoom; mode = move_mode; selection = idle }

pub record FocusTarget (F : Type 0) : Type 0 where
  pub court_id : ℕ
  pub fraction : F

pub data PlannerEvent (F : Type 0) : Type 0 where
  select : SelectionEvent → PlannerEvent F
  set_mode : PlannerMode → PlannerEvent F
  zoom_in_at : Option (FocusTarget F) → PlannerEvent F
  zoom_out_at : Option (FocusTarget F) → PlannerEvent F
  set_zoom : ZoomLevel → PlannerEvent F
  tap_overview : ℕ → F → PlannerEvent F
  resize : (match_id new_duration_minutes : ℕ) → PlannerEvent F

pub record PlannerTransition (F : Type 0) : Type 0 where
  pub state : PlannerState
  pub actions : List PlanningAction
  pub focus : Option (FocusTarget F)

pub is_idle : SelectionState → Bool
is_idle idle = true
is_idle _ = false

module _ {F : Type 0} where
  abbrev pub no_effect : PlannerState → PlannerTransition F
  no_effect s = record { state = s; actions = []; focus = none }

  pub zoom_to : PlannerState → ZoomLevel → Option (FocusTarget F) → PlannerTransition F
  zoom_to s zoom anchor =
      if zoom_eq zoom s.zoom
      then no_effect s
      else record { state = record s { zoom = zoom }; actions = []; focus = anchor }

  unfoldable pub delegate : PlannerState → SelectionEvent → PlannerTransition F
  delegate s event =
      let t : SelectionTransition = selection_reducer s.selection event s.mode in
      record { state = record s { selection = t.state }; actions = t.actions; focus = none }

  -- A tap on the grid: it does nothing at the overview level.
  gated : PlannerState → SelectionEvent → PlannerTransition F
  unfolding delegate
  gated s event = if zoom_eq s.zoom overview then no_effect s else delegate s event

  unfoldable pub planner_reducer : PlannerState → PlannerEvent F → PlannerTransition F
  unfolding zoom_to gated is_idle zoom_in zoom_out delegate
  planner_reducer s (set_mode mode) = record {
    state = record s { mode = mode; selection = idle };
    actions = [];
    focus = none;
  }
  planner_reducer s (zoom_in_at anchor) = zoom_to s (zoom_in s.zoom) anchor
  planner_reducer s (zoom_out_at anchor) = zoom_to s (zoom_out s.zoom) anchor
  planner_reducer s (set_zoom zoom) = zoom_to s zoom none
  planner_reducer s (tap_overview court_id fraction) =
      if zoom_eq s.zoom overview
      then zoom_to s (zoom_in s.zoom) (some (record { court_id = court_id; fraction = fraction }))
      else no_effect s
  planner_reducer s (resize match_id new_duration_minutes) =
      if zoom_eq s.zoom overview then no_effect s else record {
        state = s;
        actions = resize_break match_id new_duration_minutes ∷ [];
        focus = none;
      }
  planner_reducer s (select cancel) = delegate s cancel
  planner_reducer s (select unschedule_selected) = delegate s unschedule_selected
  planner_reducer s (select confirm) = delegate s confirm
  planner_reducer s (select (tap_tray_match match_id)) =
      if zoom_eq s.zoom overview && not (is_idle s.selection)
      then no_effect s
      else delegate s (tap_tray_match match_id)
  planner_reducer s (select (tap_match m)) = gated s (tap_match m)
  planner_reducer s (select (tap_insertion_line court_id index)) =
      gated s (tap_insertion_line court_id index)

  -- The planner's state after a run of events, the first one first.
  unfoldable pub run : PlannerState → List (PlannerEvent F) → PlannerState
  run s [] = s
  run s (e ∷ es) = run (planner_reducer s e).state es
