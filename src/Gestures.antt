-- ===== src/Gestures.antt =====
-- frontend/src/components/scheduling/use_pinch_zoom.ts: the gestures that zoom the planner. What the
-- browser measures is part of the events: the distance of the two fingers in a fixed fraction of a
-- pixel, and the anchor under them or under the pointer. `F` is the type of the scroll fractions.
pub mod Snaps
mod Tests
use bracket.Base.{
  ℕ, ◌+◌, ◌*◌, ◌≡◌, Bool, true, false, not, ◌&&◌, ◌||◌, List, [], ◌∷◌, ◌++◌, Option, none, some,
  ltb, leb, ◌==◌, if◌then◌else◌,
}
use bracket.Base.Int.{ℤ, pos, pos_part, neg_part, ◌+ℤ◌, ltb_ℤ}
use bracket.Planner.{FocusTarget, PlannerEvent, zoom_in_at, zoom_out_at}

-- `Math.abs`
abbrev pub abs : ℤ → ℕ
abs a = pos_part a + neg_part a

-- The touches of an event: their number, and of the first two the distance and the anchor.
pub record Touches (F : Type 0) : Type 0 where
  pub count : ℕ
  pub distance : ℕ
  pub anchor : Option (FocusTarget F)

pub record WheelEvent (F : Type 0) : Type 0 where
  pub ctrl_key : Bool
  pub delta_y : ℤ
  pub anchor : Option (FocusTarget F)

pub data GestureEvent (F : Type 0) : Type 0 where
  touch_start : Touches F → GestureEvent F
  touch_move : Touches F → GestureEvent F
  touch_end : GestureEvent F
  wheel : WheelEvent F → GestureEvent F

-- The variables of the closure.
pub record Gesture : Type 0 where
  pub pinch_baseline : Option ℕ
  pub wheel_accumulated : ℤ

abbrev pub initial_gesture : Gesture
initial_gesture = record { pinch_baseline = none; wheel_accumulated = pos 0 }

abbrev pub wheel_snap_delta : ℕ
wheel_snap_delta = 80

-- `ratio >= PINCH_SNAP_RATIO` for the ratio of a distance to the baseline and 1.3; a ratio of two
-- zeros is not a number.
pub pinched_out : ℕ → ℕ → Bool
pinched_out distance baseline =
    not (distance == 0 && baseline == 0) && leb (13 * baseline) (10 * distance)

-- `ratio <= 1 / PINCH_SNAP_RATIO`
pub pinched_in : ℕ → ℕ → Bool
pinched_in distance baseline =
    not (distance == 0 && baseline == 0) && leb (13 * distance) (10 * baseline)

module _ {F : Type 0} where
  pub on_touch_start : Touches F → Gesture → Gesture
  on_touch_start touches g =
      if touches.count == 2 then record g { pinch_baseline = some touches.distance } else g

  pinch : Touches F → ℕ → Gesture → Gesture × List (PlannerEvent F)
  unfolding pinched_out pinched_in
  pinch touches baseline g =
      if pinched_out touches.distance baseline || pinched_in touches.distance baseline
      then (
        record g { pinch_baseline = some touches.distance },
        (if pinched_out touches.distance baseline
              then zoom_in_at touches.anchor
              else zoom_out_at touches.anchor)
            ∷ [],
      )
      else (g, [])

  pub on_touch_move : Touches F → Gesture → Gesture × List (PlannerEvent F)
  unfolding pinch
  on_touch_move touches g =
      if touches.count == 2
      then elim g.pinch_baseline [ none ↦ (g, []) | some baseline ↦ pinch touches baseline g ]
      else (g, [])

  snap : WheelEvent F → ℤ → Gesture → Gesture × List (PlannerEvent F)
  snap event accumulated g =
      if leb wheel_snap_delta (abs accumulated)
      then (
        record g { wheel_accumulated = pos 0 },
        (if ltb_ℤ accumulated (pos 0) then zoom_in_at event.anchor else zoom_out_at event.anchor)
            ∷ [],
      )
      else (record g { wheel_accumulated = accumulated }, [])

  pub on_wheel : WheelEvent F → Gesture → Gesture × List (PlannerEvent F)
  unfolding snap ◌+ℤ◌
  on_wheel event g =
      if event.ctrl_key then snap event (g.wheel_accumulated +ℤ event.delta_y) g else (g, [])

  -- A handler, with the events that it passes to the planner.
  pub handle_gesture : GestureEvent F → Gesture → Gesture × List (PlannerEvent F)
  unfolding on_touch_start on_touch_move on_wheel
  handle_gesture (touch_start touches) g = (on_touch_start touches g, [])
  handle_gesture (touch_move touches) g = on_touch_move touches g
  handle_gesture touch_end g = (record g { pinch_baseline = none }, [])
  handle_gesture (wheel event) g = on_wheel event g

  pub run_gestures : List (GestureEvent F) → Gesture → Gesture × List (PlannerEvent F)
  unfolding handle_gesture
  run_gestures [] g = (g, [])
  run_gestures (e ∷ es) g =
      let (g', out) = handle_gesture e g in
      let (g'', rest) = run_gestures es g' in (g'', out ++ rest)
