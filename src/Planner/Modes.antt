-- ===== src/Planner/Modes.antt =====
-- What holds in every state that the planner can reach: the mode restricts the selection, and a
-- pending confirmation is about the selected match.
use bracket.Base.{
  ℕ, ◌≡◌, ◌≢◌, refl, false, List, [], ◌∷◌, some, arith, any, ◌⊎◌, inl, inr, Bool-cases,
}
use bracket.Zoom.{ZoomLevel, overview, zoom_eq}
use bracket.Selection.{
  PlanningAction, reschedule, swap, resize_break, ActiveSelectionState, match_selected,
  tray_match_selected, SelectionState, idle, active, confirm_move, SelectionEvent, tap_match,
  tap_tray_match, tap_insertion_line, unschedule_selected, confirm, cancel, PlannerMode, move_mode,
  unschedule_mode, edit_mode, selection_reducer,
}
use bracket.Planner.Effects.{changes_schedule}
use bracket.Planner.{
  PlannerState, initial_planner_state, PlannerEvent, select, set_mode, zoom_in_at, zoom_out_at,
  set_zoom, tap_overview, resize, delegate, planner_reducer, run,
}

-- In the edit mode nothing is selected; in the unschedule mode only a match of the tray can be.
abbrev pub Allowed : PlannerMode → SelectionState → Type 0
Allowed move_mode s = Unit
Allowed unschedule_mode (active (match_selected m)) = ⊥
Allowed unschedule_mode (confirm_move (match_selected m) a) = ⊥
Allowed unschedule_mode s = Unit
Allowed edit_mode idle = Unit
Allowed edit_mode s = ⊥

-- `action` moves the selected match: from its own place, if it has one.
abbrev pub Moves : ActiveSelectionState → PlanningAction → Type 0
Moves (match_selected m) (reschedule id body) =
    (id ≡ m.match_id)
    × (body.old_court_id ≡ some m.court_id)
    × (body.old_position ≡ some m.position)
Moves (match_selected m) (swap a b) = (a ≡ m.match_id) × (b ≢ a)
Moves (tray_match_selected t) (swap a b) = a ≡ t
Moves s a = ⊥

abbrev Pending : SelectionState → Type 0
Pending (confirm_move previous action) = Moves previous action
Pending s = Unit

pub record Inv (s : PlannerState) : Type 0 where
  pub allowed : Allowed s.mode s.selection
  pub pending : Pending s.selection

step-Allowed :
    (s : SelectionState) (e : SelectionEvent) (mode : PlannerMode)
    → Allowed mode s
    → Allowed mode (selection_reducer s e mode).state
unfolding selection_reducer
step-Allowed idle (tap_match m) move_mode h = tt
step-Allowed idle (tap_match m) unschedule_mode h = ground arith
step-Allowed idle (tap_match m) edit_mode h = tt
step-Allowed idle (tap_tray_match m) move_mode h = tt
step-Allowed idle (tap_tray_match m) unschedule_mode h = tt
step-Allowed idle (tap_tray_match m) edit_mode h = tt
step-Allowed idle _ mode h = h
step-Allowed s e move_mode h = tt
step-Allowed (active (match_selected s)) e unschedule_mode h = elim h [ ]
step-Allowed (active (tray_match_selected s)) (tap_match m) unschedule_mode h = ground arith
step-Allowed (active (tray_match_selected s)) (tap_tray_match m) unschedule_mode h = ground arith
step-Allowed (active (tray_match_selected s)) _ unschedule_mode h = tt
step-Allowed (confirm_move (match_selected s) a) e unschedule_mode h = elim h [ ]
step-Allowed (confirm_move (tray_match_selected s) a) confirm unschedule_mode h = tt
step-Allowed (confirm_move (tray_match_selected s) a) _ unschedule_mode h = tt
step-Allowed (active s) e edit_mode h = elim h [ ]
step-Allowed (confirm_move s a) e edit_mode h = elim h [ ]

step-Pending :
    (s : SelectionState) (e : SelectionEvent) (mode : PlannerMode)
    → Pending s
    → Pending (selection_reducer s e mode).state
unfolding selection_reducer
step-Pending idle (tap_match m) mode h = ground arith
step-Pending idle (tap_tray_match m) mode h = ground arith
step-Pending idle _ mode h = ground arith
step-Pending (active (match_selected s)) (tap_match m) mode h = ground arith
step-Pending (active (match_selected s)) (tap_insertion_line c i) mode h = ground arith
step-Pending (active (match_selected s)) _ mode h = ground arith
step-Pending (active (tray_match_selected s)) (tap_match m) mode h = ground arith
step-Pending (active (tray_match_selected s)) _ mode h = ground arith
step-Pending (confirm_move p a) confirm mode h = ground arith
step-Pending (confirm_move p a) _ mode h = ground arith

set_mode-Allowed : (mode : PlannerMode) → Allowed mode idle
set_mode-Allowed move_mode = tt
set_mode-Allowed unschedule_mode = tt
set_mode-Allowed edit_mode = tt

delegate-Inv :
    (F : Type 0) (s : PlannerState) (e : SelectionEvent) → Inv s → Inv (delegate {F = F} s e).state
unfolding delegate
delegate-Inv F s e v = record {
  allowed = step-Allowed s.selection e s.mode v.allowed;
  pending = step-Pending s.selection e s.mode v.pending;
}

module _ {F : Type 0} where
  -- Every event keeps the invariant.
  pub step-Inv : (s : PlannerState) (e : PlannerEvent F) → Inv s → Inv (planner_reducer s e).state
  unfolding planner_reducer
  step-Inv s (set_mode mode) v = record { allowed = set_mode-Allowed mode; pending = tt }
  step-Inv s (zoom_in_at anchor) v = ground arith
  step-Inv s (zoom_out_at anchor) v = ground arith
  step-Inv s (set_zoom zoom) v = ground arith
  step-Inv s (tap_overview court_id fraction) v = ground arith
  step-Inv s (resize m d) v = ground arith
  step-Inv s (select cancel) v = delegate-Inv F s cancel v
  step-Inv s (select unschedule_selected) v = delegate-Inv F s unschedule_selected v
  step-Inv s (select confirm) v = delegate-Inv F s confirm v
  step-Inv s (select (tap_tray_match m)) v = ground (arith, delegate-Inv F s (tap_tray_match m) v)
  step-Inv s (select (tap_match m)) v = ground (arith, delegate-Inv F s (tap_match m) v)
  step-Inv s (select (tap_insertion_line c i)) v =
      ground (arith, delegate-Inv F s (tap_insertion_line c i) v)

  run-Inv : (s : PlannerState) (es : List (PlannerEvent F)) → Inv s → Inv (run s es)
  unfolding run
  run-Inv s [] v = v
  run-Inv s (e ∷ es) v = run-Inv (planner_reducer s e).state es (step-Inv s e v)

  -- After any run of events from the initial state: in the edit mode nothing is selected, in the
  -- unschedule mode no scheduled match is selected or waits for a confirmation, and a pending
  -- action moves the match that was selected: a reschedule from that match's own court and
  -- position, or a swap of it (of a scheduled match, with another one).
  pub run-init-Inv :
      (zoom : ZoomLevel) (es : List (PlannerEvent F)) → Inv (run (initial_planner_state zoom) es)
  unfolding initial_planner_state
  run-init-Inv zoom es = run-Inv _ es (record { allowed = tt; pending = tt })

edit_mode_idle : (s : SelectionState) → Allowed edit_mode s → s ≡ idle
edit_mode_idle idle h = refl
edit_mode_idle (active a) h = elim h [ ]
edit_mode_idle (confirm_move p a) h = elim h [ ]

edit_mode_keeps :
    (s : SelectionState) (mode : PlannerMode) (e : SelectionEvent)
    → s ≡ idle
    → mode ≡ edit_mode
    → any changes_schedule (selection_reducer s e mode).actions ≡ false
unfolding selection_reducer
edit_mode_keeps s mode (tap_match m) h k = ground arith
edit_mode_keeps s mode (tap_tray_match m) h k = ground arith
edit_mode_keeps s mode _ h k = ground arith

-- The actions do not change the schedule, or the event changes a break and its only action is this
-- change.
abbrev pub OnlyResizes : {F : Type 0} → PlannerEvent F → List PlanningAction → Type 0
OnlyResizes e actions =
    (any changes_schedule actions ≡ false)
    ⊎ ((id : ℕ) × (minutes : ℕ) × (e ≡ resize id minutes)
        × (actions ≡ resize_break id minutes ∷ []))

module _ {F : Type 0} where
  edit_mode_step :
      (s : PlannerState) (e : PlannerEvent F)
      → s.selection ≡ idle
      → s.mode ≡ edit_mode
      → OnlyResizes e (planner_reducer s e).actions
  unfolding planner_reducer delegate
  edit_mode_step s (select cancel) v m = inl (edit_mode_keeps s.selection s.mode cancel v m)
  edit_mode_step s (select unschedule_selected) v m =
      inl (edit_mode_keeps s.selection s.mode unschedule_selected v m)
  edit_mode_step s (select confirm) v m = inl (edit_mode_keeps s.selection s.mode confirm v m)
  edit_mode_step s (select (tap_match i)) v m =
      inl (ground (arith, edit_mode_keeps s.selection s.mode (tap_match i) v m))
  edit_mode_step s (select (tap_tray_match i)) v m =
      inl (ground (arith, edit_mode_keeps s.selection s.mode (tap_tray_match i) v m))
  edit_mode_step s (select (tap_insertion_line c i)) v m =
      inl (ground (arith, edit_mode_keeps s.selection s.mode (tap_insertion_line c i) v m))
  edit_mode_step s (resize i d) v m = elim (Bool-cases (zoom_eq s.zoom overview)) [
    | inl e ↦ rw e (inl refl)
    | inr e ↦ rw e (inr (i, d, refl, refl))
  ]
  edit_mode_step s (tap_overview c f) v m = inl (ground arith)
  edit_mode_step s (zoom_in_at f) v m = inl (ground arith)
  edit_mode_step s (zoom_out_at f) v m = inl (ground arith)
  edit_mode_step s (set_zoom f) v m = inl (ground arith)
  edit_mode_step s (set_mode f) v m = inl (ground arith)

  -- After any run of events from the initial state that ends in the edit mode, the only event that
  -- emits an action that changes the schedule is one that changes a break, and its only action is the
  -- change of this break: there is no reschedule, swap or unschedule.
  pub edit_mode_safe :
      (zoom : ZoomLevel) (es : List (PlannerEvent F)) (e : PlannerEvent F)
      → (run (initial_planner_state zoom) es).mode ≡ edit_mode
      → OnlyResizes e (planner_reducer (run (initial_planner_state zoom) es) e).actions
  edit_mode_safe zoom es e m =
      let v : Inv (run (initial_planner_state zoom) es) = run-init-Inv zoom es in
      edit_mode_step _ e (edit_mode_idle _ (rw m at v.allowed)) m
