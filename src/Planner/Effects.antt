-- ===== src/Planner/Effects.antt =====
-- What one event of the planner can do: its actions, its focus and the change of the selection.
use bracket.Base.{
  ℕ, ◌≡◌, ◌≢◌, ◌≤◌, refl, ◌⊎◌, inl, inr, Bool, true, false, [], some, arith, any, length,
}
use bracket.Zoom.{overview}
use bracket.Selection.{
  PlanningAction, reschedule, swap, unschedule, resize_break, open_details, match_selected,
  tray_match_selected, SelectionState, idle, active, confirm_move, SelectionEvent, tap_match,
  tap_tray_match, tap_insertion_line, unschedule_selected, confirm, cancel, PlannerMode,
  selection_reducer,
}
use bracket.Planner.{
  PlannerState, FocusTarget, PlannerEvent, select, set_mode, zoom_in_at, zoom_out_at, set_zoom,
  tap_overview, resize, delegate, planner_reducer,
}

reducer_actions_le_one :
    (s : SelectionState) (e : SelectionEvent) (mode : PlannerMode)
    → length (selection_reducer s e mode).actions ≤ 1
unfolding selection_reducer
reducer_actions_le_one idle (tap_match m) mode = ground arith
reducer_actions_le_one idle (tap_tray_match m) mode = ground arith
reducer_actions_le_one idle _ mode = ground arith
reducer_actions_le_one (active (match_selected s)) (tap_match m) mode = ground arith
reducer_actions_le_one (active (match_selected s)) (tap_insertion_line c i) mode = ground arith
reducer_actions_le_one (active (match_selected s)) _ mode = ground arith
reducer_actions_le_one (active (tray_match_selected s)) (tap_match m) mode = ground arith
reducer_actions_le_one (active (tray_match_selected s)) _ mode = ground arith
reducer_actions_le_one (confirm_move p a) confirm mode = ground arith
reducer_actions_le_one (confirm_move p a) _ mode = ground arith

-- Every action but `open-details` changes the schedule.
abbrev pub changes_schedule : PlanningAction → Bool
changes_schedule (open_details id) = false
changes_schedule (resize_break id minutes) = true
changes_schedule (reschedule id body) = true
changes_schedule (swap a b) = true
changes_schedule (unschedule id) = true

reducer_emit_clears :
    (s : SelectionState) (e : SelectionEvent) (mode : PlannerMode)
    → (selection_reducer s e mode).actions ≢ []
    → (selection_reducer s e mode).state ≡ idle
unfolding selection_reducer
reducer_emit_clears idle (tap_match m) mode h = ground arith
reducer_emit_clears idle (tap_tray_match m) mode h = ground arith
reducer_emit_clears idle _ mode h = ground arith
reducer_emit_clears (active (match_selected s)) (tap_match m) mode h = ground arith
reducer_emit_clears (active (match_selected s)) (tap_insertion_line c i) mode h = ground arith
reducer_emit_clears (active (match_selected s)) _ mode h = ground arith
reducer_emit_clears (active (tray_match_selected s)) (tap_match m) mode h = ground arith
reducer_emit_clears (active (tray_match_selected s)) _ mode h = ground arith
reducer_emit_clears (confirm_move p a) confirm mode h = ground arith
reducer_emit_clears (confirm_move p a) _ mode h = ground arith

changes_clears :
    (s : SelectionState) (e : SelectionEvent) (mode : PlannerMode)
    → any changes_schedule (selection_reducer s e mode).actions ≡ true
    → (selection_reducer s e mode).state ≡ idle
changes_clears s e mode h = reducer_emit_clears s e mode (λ none_left. cc (rw none_left at h))

cancel_keeps :
    (s : SelectionState) (mode : PlannerMode)
    → any changes_schedule (selection_reducer s cancel mode).actions ≡ false
unfolding selection_reducer
cancel_keeps s mode = ground arith

-- From the idle state a tap in the tray changes nothing.
tray_tap_keeps :
    (s : SelectionState) (i : ℕ) (mode : PlannerMode)
    → s ≡ idle
    → any changes_schedule (selection_reducer s (tap_tray_match i) mode).actions ≡ false
unfolding selection_reducer
tray_tap_keeps s i mode h = ground arith

module _ {F : Type 0} where
  -- An event emits at most one action.
  pub actions_le_one :
      (s : PlannerState) (e : PlannerEvent F) → length (planner_reducer s e).actions ≤ 1
  unfolding planner_reducer delegate
  actions_le_one s (select cancel) = reducer_actions_le_one s.selection cancel s.mode
  actions_le_one s (select unschedule_selected) =
      reducer_actions_le_one s.selection unschedule_selected s.mode
  actions_le_one s (select confirm) = reducer_actions_le_one s.selection confirm s.mode
  actions_le_one s (select (tap_match m)) =
      ground (arith, reducer_actions_le_one s.selection (tap_match m) s.mode)
  actions_le_one s (select (tap_tray_match m)) =
      ground (arith, reducer_actions_le_one s.selection (tap_tray_match m) s.mode)
  actions_le_one s (select (tap_insertion_line c i)) =
      ground (arith, reducer_actions_le_one s.selection (tap_insertion_line c i) s.mode)
  actions_le_one s (resize i d) = ground arith
  actions_le_one s (tap_overview c f) = ground arith
  actions_le_one s (zoom_in_at f) = ground arith
  actions_le_one s (zoom_out_at f) = ground arith
  actions_le_one s (set_zoom f) = ground arith
  actions_le_one s (set_mode f) = ground arith

  -- The grid is scrolled only with a change of the zoom level, which emits nothing and keeps the
  -- mode and the selection.
  pub focus_zooms :
      (s : PlannerState) (e : PlannerEvent F) (target : FocusTarget F)
      → (planner_reducer s e).focus ≡ some target
      → ((planner_reducer s e).state.zoom ≢ s.zoom)
        × ((planner_reducer s e).actions ≡ [])
        × ((planner_reducer s e).state.mode ≡ s.mode)
        × ((planner_reducer s e).state.selection ≡ s.selection)
  unfolding planner_reducer delegate
  focus_zooms s (select cancel) target h = cc
  focus_zooms s (select unschedule_selected) target h = cc
  focus_zooms s (select confirm) target h = cc
  focus_zooms s (select (tap_match m)) target h = ground arith
  focus_zooms s (select (tap_tray_match m)) target h = ground arith
  focus_zooms s (select (tap_insertion_line c i)) target h = ground arith
  focus_zooms s (resize i d) target h = ground arith
  focus_zooms s (tap_overview c f) target h = ground arith
  focus_zooms s (zoom_in_at f) target h = ground arith
  focus_zooms s (zoom_out_at f) target h = ground arith
  focus_zooms s (set_zoom f) target h = ground arith
  focus_zooms s (set_mode f) target h = ground arith

  -- At the overview level an action that changes the schedule, the change of a break included, is
  -- emitted only by one of the buttons that confirm a pending move or unschedule the selected match,
  -- and clears the selection.
  pub overview_buttons :
      (s : PlannerState) (e : PlannerEvent F)
      → s.zoom ≡ overview
      → any changes_schedule (planner_reducer s e).actions ≡ true
      → ((e ≡ select confirm) ⊎ (e ≡ select unschedule_selected))
        × ((planner_reducer s e).state.selection ≡ idle)
  unfolding planner_reducer delegate
  overview_buttons s (select cancel) z h = absurd (cc (cancel_keeps s.selection s.mode))
  overview_buttons s (select unschedule_selected) z h =
      (inr refl, changes_clears s.selection unschedule_selected s.mode h)
  overview_buttons s (select confirm) z h = (inl refl, changes_clears s.selection confirm s.mode h)
  overview_buttons s (select (tap_match m)) z h = ground arith
  overview_buttons s (select (tap_tray_match m)) z h =
      absurd (ground (arith, tray_tap_keeps s.selection m s.mode))
  overview_buttons s (select (tap_insertion_line c i)) z h = ground arith
  overview_buttons s (resize i d) z h = ground arith
  overview_buttons s (tap_overview c f) z h = ground arith
  overview_buttons s (zoom_in_at f) z h = ground arith
  overview_buttons s (zoom_out_at f) z h = ground arith
  overview_buttons s (set_zoom f) z h = ground arith
  overview_buttons s (set_mode f) z h = ground arith
