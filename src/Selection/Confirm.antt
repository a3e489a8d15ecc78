-- ===== src/Selection/Confirm.antt =====
-- What a tap on an active selection asks for, and when it has to be confirmed first.
use bracket.Base.{◌≡◌, ◌≢◌, ◌⊎◌, Bool, true, false, ◌||◌, [], arith, is_true}
use bracket.Selection.{
  GridMatchRef, PlanningAction, swap, ActiveSelectionState, match_selected, tray_match_selected,
  SelectionState, idle, active, confirm_move, SelectionEvent, tap_match, tap_tray_match,
  tap_insertion_line, confirm, cancel, PlannerMode, stay, emit, selection_reducer,
}

-- The marks that the comment of the source names: the moved match has been played, or a swap
-- touches a played match or the frozen past.
abbrev pub disturbs : GridMatchRef → GridMatchRef → Bool
disturbs s m = is_true s.played || is_true s.locked || is_true m.played || is_true m.locked

-- Tapping another scheduled match swaps the two at once exactly when neither is played or locked;
-- otherwise nothing is emitted, the swap waits for the confirmation, which emits this very swap,
-- and cancelling it restores the selection.
pub tap_match_swaps :
    (s m : GridMatchRef) (mode : PlannerMode)
    → m.match_id ≢ s.match_id
    → let t = selection_reducer (active (match_selected s)) (tap_match m) mode in
      ((disturbs s m ≡ false) × (t ≡ emit (swap s.match_id m.match_id)))
      ⊎ ((disturbs s m ≡ true)
          × (t.actions ≡ [])
          × (selection_reducer t.state confirm mode ≡ emit (swap s.match_id m.match_id))
          × (selection_reducer t.state cancel mode ≡ stay (active (match_selected s))))
unfolding selection_reducer
tap_match_swaps s m mode h = ground arith

-- Entering the confirmation never loses or performs anything: whatever selection state and event
-- lead to a new `confirm_move`, the state was the active selection that the confirmation keeps,
-- nothing is emitted, confirming emits exactly the stashed action, and cancelling goes back to the
-- state from before the tap.
pub confirm_round_trip :
    (s : SelectionState) (e : SelectionEvent) (mode : PlannerMode) (previous : ActiveSelectionState)
    (action : PlanningAction)
    → s ≢ confirm_move previous action
    → (selection_reducer s e mode).state ≡ confirm_move previous action
    → (s ≡ active previous)
      × ((selection_reducer s e mode).actions ≡ [])
      × (selection_reducer (selection_reducer s e mode).state confirm mode ≡ emit action)
      × (selection_reducer (selection_reducer s e mode).state cancel mode ≡ stay s)
unfolding selection_reducer
confirm_round_trip idle (tap_match m) mode previous action h e = ground arith
confirm_round_trip idle (tap_tray_match m) mode previous action h e = ground arith
confirm_round_trip idle _ mode previous action h e = ground arith
confirm_round_trip (active (match_selected s)) (tap_match m) mode previous action h e = ground arith
confirm_round_trip (active (match_selected s)) (tap_insertion_line c i) mode previous action h e =
    ground arith
confirm_round_trip (active (match_selected s)) _ mode previous action h e = ground arith
confirm_round_trip (active (tray_match_selected s)) (tap_match m) mode previous action h e =
    ground arith
confirm_round_trip (active (tray_match_selected s)) _ mode previous action h e = ground arith
confirm_round_trip (confirm_move p a) confirm mode previous action h e = ground arith
confirm_round_trip (confirm_move p a) cancel mode previous action h e = ground arith
confirm_round_trip (confirm_move p a) _ mode previous action h e = ground arith
