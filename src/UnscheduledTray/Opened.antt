-- ===== src/UnscheduledTray/Opened.antt =====
-- unscheduled_tray.ts: when the tray is open, over what the planner does.
use bracket.Base.{ℕ, ◌≡◌, ◌≢◌, refl, Bool, true, [], arith, Bool-cases, inl, inr, ◌&&◌, not}
use bracket.Zoom.{overview, zoom_eq}
use bracket.Selection.{
  SelectionState, SelectionEvent, idle, active, confirm_move, match_selected, tray_match_selected,
  tap_insertion_line, tap_match, cancel, confirm, tap_tray_match, unschedule_selected,
  selection_reducer, PlannerMode,
}
use bracket.Planner.{PlannerState, select, planner_reducer, delegate, is_idle}
use bracket.UnscheduledTray.{next_tray_opened_after_planner_event, selection_for_tray}

module _ (F : Type 0) where
  selection_reopens :
      (sel : SelectionState) (e : SelectionEvent) (mode : PlannerMode) (opened : Bool) (t : ℕ)
      → selection_for_tray sel ≡ active (tray_match_selected t)
      → (selection_reducer sel e mode).actions ≢ []
      → next_tray_opened_after_planner_event {F = F} opened
          (selection_for_tray sel)
          (selection_reducer sel e mode).state
          (select e)
          (selection_reducer sel e mode).actions
        ≡ true
  unfolding selection_reducer selection_for_tray next_tray_opened_after_planner_event
  selection_reopens idle e mode opened t h k = ground (arith, h)
  selection_reopens (active (match_selected m)) e mode opened t h k = ground (arith, h)
  selection_reopens (active (tray_match_selected u)) (tap_match m) mode opened t h k =
      ground (arith, k)
  selection_reopens (active (tray_match_selected u)) (tap_tray_match m) mode opened t h k =
      ground (arith, k)
  selection_reopens (active (tray_match_selected u)) (tap_insertion_line c i) mode opened t h k =
      ground (arith, k)
  selection_reopens (active (tray_match_selected u)) unschedule_selected mode opened t h k =
      absurd (k refl)
  selection_reopens (active (tray_match_selected u)) confirm mode opened t h k = absurd (k refl)
  selection_reopens (active (tray_match_selected u)) cancel mode opened t h k = absurd (k refl)
  selection_reopens (confirm_move (match_selected m) action) e mode opened t h k = ground (arith, h)
  selection_reopens (confirm_move (tray_match_selected u) action) confirm mode opened t h k = refl
  selection_reopens (confirm_move (tray_match_selected u) action) cancel mode opened t h k =
      absurd (k refl)
  selection_reopens (confirm_move (tray_match_selected u) action) _ mode opened t h k =
      absurd (k refl)

  -- While a tray match is selected, also while its move waits for the confirmation, every event on
  -- the selection that emits an action leaves the tray open, whether it was open before or not.
  pub tray_reopens :
      (s : PlannerState) (e : SelectionEvent) (opened : Bool) (t : ℕ)
      → selection_for_tray s.selection ≡ active (tray_match_selected t)
      → (planner_reducer {F = F} s (select e)).actions ≢ []
      → next_tray_opened_after_planner_event {F = F} opened
          (selection_for_tray s.selection)
          (planner_reducer {F = F} s (select e)).state.selection
          (select e)
          (planner_reducer {F = F} s (select e)).actions
        ≡ true
  unfolding planner_reducer delegate
  tray_reopens s cancel opened t h k = selection_reopens s.selection cancel s.mode opened t h k
  tray_reopens s unschedule_selected opened t h k =
      selection_reopens s.selection unschedule_selected s.mode opened t h k
  tray_reopens s confirm opened t h k = selection_reopens s.selection confirm s.mode opened t h k
  tray_reopens s (tap_match m) opened t h k = elim (Bool-cases (zoom_eq s.zoom overview)) [
    | inl z ↦ absurd (k (rw z))
    | inr z ↦ rw z (
        selection_reopens s.selection (tap_match m) s.mode opened t h (λ nothing. k (rw z nothing)))
  ]
  tray_reopens s (tap_tray_match m) opened t h k =
      elim (Bool-cases (zoom_eq s.zoom overview && not (is_idle s.selection))) [
        | inl z ↦ absurd (k (rw z))
        | inr z ↦ rw z (
            selection_reopens s.selection (tap_tray_match m) s.mode opened t h
              (λ nothing. k (rw z nothing)))
      ]
  tray_reopens s (tap_insertion_line c i) opened t h k =
      elim (Bool-cases (zoom_eq s.zoom overview)) [
        | inl z ↦ absurd (k (rw z))
        | inr z ↦ rw z (
            selection_reopens s.selection (tap_insertion_line c i) s.mode opened t h
              (λ nothing. k (rw z nothing)))
      ]
