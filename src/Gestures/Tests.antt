-- ===== src/Gestures/Tests.antt =====
-- Tests of the gestures.
use bracket.Base.{ℕ, ◌+◌, ◌*◌, ◌≡◌, ◌≤◌, ◌<◌, refl, true, List, [], ◌∷◌, none, length}
use bracket.Base.Int.{pos, negsuc}
use bracket.Zoom.{compact}
use bracket.Selection.{move_mode, idle}
use bracket.Planner.{PlannerState, zoom_in_at, zoom_out_at, run}
use bracket.Gestures.{
  abs, GestureEvent, touch_start, touch_move, touch_end, wheel, initial_gesture, run_gestures,
}
use bracket.Gestures.Snaps.{efforts, run_gestures-snaps}

-- The fingers part from 100 to 140 and stop at 150, then the wheel turns back twice.
abbrev gestures : List (GestureEvent ℕ)
gestures =
    touch_start (record { count = 2; distance = 100; anchor = none })
    ∷ touch_move (record { count = 2; distance = 140; anchor = none })
    ∷ touch_move (record { count = 2; distance = 150; anchor = none })
    ∷ touch_end
    ∷ wheel (record { ctrl_key = true; delta_y = pos 50; anchor = none })
    ∷ wheel (record { ctrl_key = true; delta_y = pos 60; anchor = none })
    ∷ wheel (record { ctrl_key = true; delta_y = negsuc 9; anchor = none })
    ∷ []

run_test : (run_gestures gestures initial_gesture).1 ≡ zoom_in_at none ∷ zoom_out_at none ∷ []
unfolding run_gestures
run_test = refl

abbrev planner : PlannerState
planner = record { zoom = compact; mode = move_mode; selection = idle }

run_gestures-snaps_example :
    let (g, out) = run_gestures gestures initial_gesture in
    (80 * length out + abs g.wheel_accumulated ≤ efforts gestures)
    × (abs g.wheel_accumulated < 80)
    × ((run planner out).selection ≡ idle)
    × ((run planner out).mode ≡ move_mode)
run_gestures-snaps_example = run_gestures-snaps gestures planner
