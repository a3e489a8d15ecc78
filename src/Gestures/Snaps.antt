-- ===== src/Gestures/Snaps.antt =====
-- use_pinch_zoom.ts: how much the fingers and the wheel have to move for a zoom, and what it leaves.
use bracket.Base.{
  ℕ, ◌+◌, ◌*◌, ◌<◌, ◌≤◌, ◌≡◌, refl, ◌∙◌, Bool, true, false, List, [], ◌∷◌, arith, length,
  length-append, any, any-append, if◌then◌else◌,
}
use bracket.Base.Int.{ℤ, ◌+ℤ◌}
use bracket.Planner.{
  PlannerState, PlannerEvent, zoom_in_at, zoom_out_at, planner_reducer, run, select, set_mode,
  set_zoom, tap_overview, resize,
}
use bracket.Gestures.{
  abs, GestureEvent, touch_start, touch_move, touch_end, wheel, Gesture, initial_gesture,
  handle_gesture, run_gestures, on_touch_start, on_touch_move, on_wheel, pinch, snap,
}

abs-add : (a b : ℤ) → abs (a +ℤ b) ≤ abs a + abs b
unfolding ◌+ℤ◌
abs-add a b = ground arith

module _ {F : Type 0} where
  -- What an event can contribute to the zooms: a move of the fingers one of them, a turn of the
  -- wheel with the control key its delta in eightieths.
  abbrev pub effort : GestureEvent F → ℕ
  effort (touch_start touches) = 0
  effort (touch_move touches) = 80
  effort touch_end = 0
  effort (wheel event) = if event.ctrl_key then abs event.delta_y else 0

  abbrev pub efforts : List (GestureEvent F) → ℕ
  efforts [] = 0
  efforts (e ∷ es) = effort e + efforts es

  abbrev other_event : PlannerEvent F → Bool
  other_event (zoom_in_at anchor) = false
  other_event (zoom_out_at anchor) = false
  other_event _ = true

  handle_gesture_bound :
      (e : GestureEvent F) (g : Gesture)
      → abs g.wheel_accumulated < 80
      → let (g', out) = handle_gesture e g in
        (80 * length out + abs g'.wheel_accumulated ≤ effort e + abs g.wheel_accumulated)
        × (abs g'.wheel_accumulated < 80)
  unfolding handle_gesture on_touch_start on_touch_move on_wheel pinch snap
  handle_gesture_bound (touch_start touches) g h = ground arith
  handle_gesture_bound (touch_move touches) g h = ground arith
  handle_gesture_bound touch_end g h = ground arith
  handle_gesture_bound (wheel event) g h = ground (arith, abs-add g.wheel_accumulated event.delta_y)

  run_gestures_bound :
      (es : List (GestureEvent F)) (g : Gesture)
      → abs g.wheel_accumulated < 80
      → let (g', out) = run_gestures es g in
        (80 * length out + abs g'.wheel_accumulated ≤ efforts es + abs g.wheel_accumulated)
        × (abs g'.wheel_accumulated < 80)
  unfolding run_gestures
  run_gestures_bound [] g h = ground arith
  run_gestures_bound (e ∷ es) g h =
      let (g1, out) = handle_gesture e g in
      let (first, small) = handle_gesture_bound e g h in
      let (rest, last) = run_gestures_bound es g1 small in
      (omega (arith, first, rest, length-append out (run_gestures es g1).1), last)

  handle_gesture_zooms :
      (e : GestureEvent F) (g : Gesture) → any other_event (handle_gesture e g).1 ≡ false
  unfolding handle_gesture on_touch_move on_wheel pinch snap
  handle_gesture_zooms (touch_start touches) g = refl
  handle_gesture_zooms (touch_move touches) g = ground arith
  handle_gesture_zooms touch_end g = refl
  handle_gesture_zooms (wheel event) g = ground arith

  run_gestures_zooms :
      (es : List (GestureEvent F)) (g : Gesture) → any other_event (run_gestures es g).1 ≡ false
  unfolding run_gestures
  run_gestures_zooms [] g = refl
  run_gestures_zooms (e ∷ es) g = ground (
    arith,
    any-append other_event (handle_gesture e g).1 (run_gestures es (handle_gesture e g).0).1,
    handle_gesture_zooms e g,
    run_gestures_zooms es (handle_gesture e g).0,
  )

  zoom_keeps :
      (s : PlannerState) (e : PlannerEvent F)
      → other_event e ≡ false
      → ((planner_reducer s e).state.selection ≡ s.selection)
        × ((planner_reducer s e).state.mode ≡ s.mode)
  unfolding planner_reducer
  zoom_keeps s (zoom_in_at a) h = ground arith
  zoom_keeps s (zoom_out_at a) h = ground arith
  zoom_keeps s (select a) h = ground (arith, h)
  zoom_keeps s (set_mode a) h = ground (arith, h)
  zoom_keeps s (set_zoom a) h = ground (arith, h)
  zoom_keeps s (tap_overview c f) h = ground (arith, h)
  zoom_keeps s (resize i d) h = ground (arith, h)

  zooms_keep :
      (s : PlannerState) (es : List (PlannerEvent F))
      → any other_event es ≡ false
      → ((run s es).selection ≡ s.selection) × ((run s es).mode ≡ s.mode)
  unfolding run
  zooms_keep s [] h = (refl, refl)
  zooms_keep s (e ∷ es) h =
      let (selection, mode) = zoom_keeps s e (ground (arith, h)) in
      let (rest, rest') = zooms_keep (planner_reducer s e).state es (ground (arith, h)) in
      (rest ∙ selection, rest' ∙ mode)

  -- In a run of gestures 80 times the number of zooms, and what is left of the wheel, are at most 80
  -- times the number of moves of the fingers and the turns of the wheel with the control key; less
  -- than 80 units are left; and the planner that handles the zooms keeps its selection and its mode.
  pub run_gestures-snaps :
      (es : List (GestureEvent F)) (s : PlannerState)
      → let (g, out) = run_gestures es initial_gesture in
        (80 * length out + abs g.wheel_accumulated ≤ efforts es)
        × (abs g.wheel_accumulated < 80)
        × ((run s out).selection ≡ s.selection)
        × ((run s out).mode ≡ s.mode)
  run_gestures-snaps es s =
      let (bound, small) = run_gestures_bound es initial_gesture (omega arith) in
      let (selection, mode) =
        zooms_keep s (run_gestures es initial_gesture).1 (run_gestures_zooms es initial_gesture) in
      (omega (arith, bound), small, selection, mode)
