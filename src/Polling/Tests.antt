-- ===== src/Polling/Tests.antt =====
-- Tests of the polling policy.
use bracket.Base.{ℕ, ◌≡◌, refl, true, some}
use bracket.Zoom.{compact}
use bracket.Selection.{
  tray_match_selected, active, tap_insertion_line, move_mode, selection_reducer,
}
use bracket.Planner.{PlannerState, PlannerEvent, select, planner_reducer}
use bracket.Polling.{
  should_refresh_on_selection_change, schedule_refresh_interval, is_stale_schedule_error, object,
  placement_refreshes,
}

abbrev holding : PlannerState
holding = record { zoom = compact; mode = move_mode; selection = active (tray_match_selected 7) }

abbrev line_tap : PlannerEvent ℕ
line_tap = select (tap_insertion_line 11 2)

placement_refreshes_example :
    (should_refresh_on_selection_change holding.selection
        (planner_reducer holding line_tap).state.selection
      ≡ true)
    × (schedule_refresh_interval (planner_reducer holding line_tap).state.selection ≡ 10_000)
unfolding planner_reducer selection_reducer
placement_refreshes_example = placement_refreshes holding line_tap refl

stale_test : is_stale_schedule_error (object (some (record { status = some 409 }))) ≡ true
unfolding is_stale_schedule_error
stale_test = refl
