-- ===== src/Selection/Tests.antt =====
-- Tests of the selection machine, from frontend/src/logic/planning/selection.test.ts.
use bracket.Base.{
  List, ℕ, ◌+◌, ◌≡◌, ◌≢◌, refl, ◌⊎◌, true, false, [], ◌∷◌, none, some, arith, take, drop,
}
use bracket.Selection.{
  GridMatchRef, RescheduleBody, place, SelectionTransition, reschedule, swap, match_selected,
  tray_match_selected, idle, active, tap_match, tap_insertion_line, confirm, cancel, move_mode,
  unschedule_mode, stay, emit, selection_reducer,
}
use bracket.Selection.Placing.{place_position}
use bracket.Selection.Confirm.{disturbs, tap_match_swaps, confirm_round_trip}

abbrev match_at : ℕ → ℕ → ℕ → GridMatchRef
match_at id court position = record {
  match_id = id;
  court_id = court;
  position = position;
  played = none;
  locked = none;
}

abbrev played_match : GridMatchRef
played_match = record (match_at 1 10 0) { played = some true }

reducer_tests :
    (selection_reducer idle (tap_match (match_at 1 10 0)) move_mode
      ≡ stay (active (match_selected (match_at 1 10 0))))
    × (selection_reducer
          (active (match_selected (match_at 1 10 0)))
          (tap_insertion_line 10 3)
          move_mode
        ≡ emit (
            reschedule 1 (record {
              old_court_id = some 10;
              old_position = some 0;
              new_court_id = 10;
              new_position = 2;
            })))
    × (selection_reducer
          (active (match_selected (match_at 1 10 0)))
          (tap_insertion_line 10 1)
          move_mode
        ≡ stay idle)
    × (selection_reducer (active (tray_match_selected 7)) (tap_insertion_line 11 2) move_mode
        ≡ emit (
            reschedule 7 (record {
              old_court_id = none;
              old_position = none;
              new_court_id = 11;
              new_position = 2;
            })))
    × (selection_reducer idle (tap_match played_match) unschedule_mode ≡ stay idle)
unfolding selection_reducer
reducer_tests = (refl, refl, refl, refl, refl)

tap_match_swaps_example :
    let t =
      selection_reducer
        (active (match_selected played_match))
        (tap_match (match_at 2 10 1))
        move_mode in
    ((disturbs played_match (match_at 2 10 1) ≡ false) × (t ≡ emit (swap 1 2)))
    ⊎ ((disturbs played_match (match_at 2 10 1) ≡ true)
        × (t.actions ≡ [])
        × (selection_reducer t.state confirm move_mode ≡ emit (swap 1 2))
        × (selection_reducer t.state cancel move_mode
            ≡ stay (active (match_selected played_match))))
tap_match_swaps_example = tap_match_swaps played_match (match_at 2 10 1) move_mode (omega arith)

abbrev tapped : SelectionTransition
tapped =
    selection_reducer (active (match_selected played_match)) (tap_match (match_at 2 10 1)) move_mode

confirm_round_trip_example :
    (active (match_selected played_match) ≡ active (match_selected played_match))
    × (tapped.actions ≡ [])
    × (selection_reducer tapped.state confirm move_mode ≡ emit (swap 1 2))
    × (selection_reducer tapped.state cancel move_mode
        ≡ stay (active (match_selected played_match)))
unfolding selection_reducer
confirm_round_trip_example =
    confirm_round_trip (active (match_selected played_match)) (tap_match (match_at 2 10 1))
      move_mode (match_selected played_match) (swap 1 2) (cc) refl

-- The first of three matches of a court.
abbrev first_of_three : GridMatchRef
first_of_three = record { match_id = 7; court_id = 1; position = 0; played = none; locked = none }

abbrev others : List ℕ
others = 8 ∷ 9 ∷ []

abbrev line : ℕ
line = 2

place_position_example :
    ((place first_of_three 1 2 ≡ stay idle) × ((line ≡ 0) ⊎ (line ≡ 0 + 1)))
    ⊎ ((line ≢ 0)
        × (line ≢ 0 + 1)
        × (body : RescheduleBody) × (place first_of_three 1 2 ≡ emit (reschedule 7 body))
        × (body.new_court_id ≡ 1)
        × (take body.new_position others ≡ 8 ∷ [])
        × (drop body.new_position others ≡ 9 ∷ []))
place_position_example =
    place_position first_of_three 2 (7 ∷ 8 ∷ 9 ∷ [])
      (
        ((λ e. ground (arith, e)), ((λ e. ground (arith, e)), tt)),
        (((λ e. ground (arith, e)), tt), (tt, tt)),
      )
      refl
