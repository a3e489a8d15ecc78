-- ===== src/Polling.antt =====
-- frontend/src/logic/planning/polling.ts: when the schedule is fetched again.
mod Tests
use bracket.Base.{
  ℕ, ◌≡◌, ◌≢◌, refl, ◌⊎◌, Bool, true, false, not, ◌&&◌, List, [], ◌∷◌, Option, none, some, arith,
  any, ◌==◌, if◌then◌else◌,
}
use bracket.Selection.{
  PlanningAction, reschedule, swap, unschedule, resize_break, open_details, SelectionState, idle,
  active, confirm_move, match_selected, tray_match_selected, SelectionEvent, tap_match,
  tap_tray_match, tap_insertion_line, unschedule_selected, confirm, cancel, PlannerMode,
  selection_reducer,
}
use bracket.Planner.{
  PlannerState, PlannerEvent, select, set_mode, zoom_in_at, zoom_out_at, set_zoom, tap_overview,
  resize, delegate, planner_reducer,
}

abbrev pub schedule_poll_interval_ms : ℕ
schedule_poll_interval_ms = 10_000

pub polling_paused : SelectionState → Bool
polling_paused idle = false
polling_paused _ = true

pub schedule_refresh_interval : SelectionState → ℕ
unfolding polling_paused
schedule_refresh_interval s = if polling_paused s then 0 else schedule_poll_interval_ms

pub should_refresh_on_selection_change : SelectionState → SelectionState → Bool
unfolding polling_paused
should_refresh_on_selection_change previous next =
    polling_paused previous && not (polling_paused next)

pub record ErrorResponse : Type 0 where
  pub status : Option ℕ

-- What `typeof` and the `null` test of the source tell apart in a value of type `unknown`.
pub data Thrown : Type 0 where
  null_value : Thrown
  primitive : Thrown
  object : Option ErrorResponse → Thrown

unfoldable pub is_stale_schedule_error : Thrown → Bool
is_stale_schedule_error (object (some r)) = elim r.status [ none ↦ false | some s ↦ s == 409 ]
is_stale_schedule_error _ = false

-- A reschedule or a swap.
abbrev pub moves_match : PlanningAction → Bool
moves_match (reschedule id body) = true
moves_match (swap a b) = true
moves_match (unschedule id) = false
moves_match (resize_break id minutes) = false
moves_match (open_details id) = false

reducer_refreshes :
    (s : SelectionState) (e : SelectionEvent) (mode : PlannerMode)
    → any moves_match (selection_reducer s e mode).actions ≡ true
    → (polling_paused s ≡ true) × (polling_paused (selection_reducer s e mode).state ≡ false)
unfolding selection_reducer polling_paused
reducer_refreshes idle (tap_match m) mode h = ground arith
reducer_refreshes idle (tap_tray_match m) mode h = ground arith
reducer_refreshes idle _ mode h = ground arith
reducer_refreshes (active (match_selected s)) (tap_match m) mode h = ground arith
reducer_refreshes (active (match_selected s)) (tap_insertion_line c i) mode h = ground arith
reducer_refreshes (active (match_selected s)) _ mode h = ground arith
reducer_refreshes (active (tray_match_selected s)) (tap_match m) mode h = ground arith
reducer_refreshes (active (tray_match_selected s)) _ mode h = ground arith
reducer_refreshes (confirm_move p a) confirm mode h = ground arith
reducer_refreshes (confirm_move p a) _ mode h = ground arith

-- A planner event that emits a reschedule or a swap ends a pause: the schedule is fetched again at
-- once, and then at the polling interval.
pub placement_refreshes :
    {F : Type 0} (s : PlannerState) (e : PlannerEvent F)
    → any moves_match (planner_reducer s e).actions ≡ true
    → (should_refresh_on_selection_change s.selection (planner_reducer s e).state.selection ≡ true)
      × (schedule_refresh_interval (planner_reducer s e).state.selection ≡ 10_000)
unfolding planner_reducer delegate should_refresh_on_selection_change schedule_refresh_interval
placement_refreshes s (select cancel) h =
    ground (arith, reducer_refreshes s.selection cancel s.mode h)
placement_refreshes s (select unschedule_selected) h =
    ground (arith, reducer_refreshes s.selection unschedule_selected s.mode h)
placement_refreshes s (select confirm) h =
    ground (arith, reducer_refreshes s.selection confirm s.mode h)
placement_refreshes s (select (tap_match m)) h =
    ground (arith, reducer_refreshes s.selection (tap_match m) s.mode)
placement_refreshes s (select (tap_tray_match m)) h =
    ground (arith, reducer_refreshes s.selection (tap_tray_match m) s.mode)
placement_refreshes s (select (tap_insertion_line c i)) h =
    ground (arith, reducer_refreshes s.selection (tap_insertion_line c i) s.mode)
placement_refreshes s (resize i d) h = ground arith
placement_refreshes s (tap_overview c f) h = ground arith
placement_refreshes s (zoom_in_at f) h = ground arith
placement_refreshes s (zoom_out_at f) h = ground arith
placement_refreshes s (set_zoom f) h = ground arith
placement_refreshes s (set_mode f) h = ground arith
