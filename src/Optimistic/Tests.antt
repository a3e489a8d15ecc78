-- ===== src/Optimistic/Tests.antt =====
-- Tests of the optimistic updates, after frontend/src/logic/planning/optimistic.test.ts.
use bracket.Base.{
  zero, suc, arith, ℕ, false, length, ◌≤◌, ◌*◌, ◌≡◌, ◌≢◌, All, get_elem?, refl, List, [], ◌∷◌, map,
  none, some,
}
use bracket.Base.Int.{pos, ◌+ℤ◌, ◌-ℤ◌}
use bracket.Base.Order.{sort}
use bracket.Base.Store.{get, put}
use bracket.Conflicts.{ConflictMatch, ConflictStage, single_elimination, get_all_matches}
use bracket.Selection.{GridMatchRef, place, PlanningAction, reschedule, swap, resize_break}
use bracket.Optimistic.{
  Store, write, insert_match_at, scheduled_on_court, apply_to_store, apply_planning_actions,
}
use bracket.Optimistic.Packing.{IsPacked, insert_match_at-IsPacked}
use bracket.Optimistic.CourtOrder.{UniqueIds, orders_of, move_to}
use bracket.Optimistic.CourtOrder.Strict.{TakesTime}
use bracket.Optimistic.CourtOrder.Line.{drop_at}
use bracket.Optimistic.CourtOrder.Tap.{place-drop_at}
use bracket.Optimistic.CourtOrder.Refines.{insert_match_at-refines}
use bracket.Optimistic.Frame.{unplaced, apply_planning_actions_frame}

-- A match on court 1 that starts `start` minutes after the epoch.
abbrev game : ℕ → ℕ → ConflictMatch
game id start = record {
  id = id;
  start_time = some (pos (start * 60_000));
  duration_minutes = 10;
  court_id = some 1;
  stage_item_input1 = none;
  stage_item_input2 = none;
  stage_item_input1_id = none;
  stage_item_input2_id = none;
  stage_item_input1_winner_from_match_id = none;
  stage_item_input2_winner_from_match_id = none;
  referee_stage_item_input_id = none;
  referee = none;
}

abbrev in_tray : ConflictMatch
in_tray = record (game 3 0) { court_id = none; start_time = none }

abbrev store : Store
store = game 1 0 ∷ game 2 15 ∷ in_tray ∷ []

abbrev stages : List ConflictStage
stages =
    record {
      stage_items =
          record {
            id = 1;
            type = single_elimination;
            inputs = [];
            rounds = record { id = 1; matches = store } ∷ [];
          }
          ∷ [];
    }
    ∷ []

-- The tray match goes to the second place of the court and pushes the match behind it.
abbrev insertion : PlanningAction
insertion =
    reschedule 3
      (record { old_court_id = none; old_position = none; new_court_id = 1; new_position = 1 })

starts_of_test :
    map (λ m. m.start_time) (apply_to_store (pos 0) 5 store (insertion ∷ []))
    ≡ some (pos 0) ∷ some (pos (30 * 60_000)) ∷ some (pos (15 * 60_000)) ∷ []
unfolding apply_to_store sort get put write ◌+ℤ◌ ◌-ℤ◌
starts_of_test = refl

-- The match and the one behind it start twenty minutes later, and the tray match takes its slot.
resize_then_swap_test :
    map (λ m. m.start_time) (apply_to_store (pos 0) 5 store (resize_break 2 25 ∷ swap 2 3 ∷ []))
    ≡ some (pos 0) ∷ none ∷ some (pos (35 * 60_000)) ∷ []
unfolding apply_to_store sort get put write ◌+ℤ◌ ◌-ℤ◌
resize_then_swap_test = refl

apply_planning_actions_frame_example :
    map unplaced (get_all_matches (apply_planning_actions (pos 0) 5 stages (insertion ∷ [])))
    ≡ map unplaced (get_all_matches stages)
apply_planning_actions_frame_example =
    apply_planning_actions_frame (pos 0) 5 stages (insertion ∷ [])

insert_match_at-IsPacked_example :
    IsPacked (pos 0) 5 1 none (0 ∷ 2 ∷ 1 ∷ []) (insert_match_at (pos 0) 5 1 2 1 (some 3) store)
    × ((j : ℕ)
        → All (λ r. r ≢ j) (0 ∷ 2 ∷ 1 ∷ [])
        → get_elem? (insert_match_at (pos 0) 5 1 2 1 (some 3) store) j ≡ get_elem? store j)
unfolding scheduled_on_court sort ◌-ℤ◌
insert_match_at-IsPacked_example = insert_match_at-IsPacked 1 store 2 in_tray refl (pos 0) 5 1

unique_ids : UniqueIds store
unique_ids zero zero m n h k e = refl
unique_ids (suc zero) (suc zero) m n h k e = refl
unique_ids (suc (suc zero)) (suc (suc zero)) m n h k e = refl
unique_ids zero (suc zero) m n h k e = ground (arith, h, k, e)
unique_ids zero (suc (suc zero)) m n h k e = ground (arith, h, k, e)
unique_ids (suc zero) zero m n h k e = ground (arith, h, k, e)
unique_ids (suc zero) (suc (suc zero)) m n h k e = ground (arith, h, k, e)
unique_ids (suc (suc zero)) zero m n h k e = ground (arith, h, k, e)
unique_ids (suc (suc zero)) (suc zero) m n h k e = ground (arith, h, k, e)
unique_ids (suc (suc (suc i))) j m n h k e = ground (arith, h)
unique_ids zero (suc (suc (suc j))) m n h k e = ground (arith, k)
unique_ids (suc zero) (suc (suc (suc j))) m n h k e = ground (arith, k)
unique_ids (suc (suc zero)) (suc (suc (suc j))) m n h k e = ground (arith, k)

takes_time : TakesTime store
takes_time zero m h = ground (arith, h)
takes_time (suc zero) m h = ground (arith, h)
takes_time (suc (suc zero)) m h = ground (arith, h)
takes_time (suc (suc (suc i))) m h = ground (arith, h)

insert_match_at-refines_example :
    orders_of (pos 0) 5 (insert_match_at (pos 0) 5 1 2 1 (some 3) store) 1
    ≡ move_to 1 1 2 (orders_of (pos 0) 5 store) 1
insert_match_at-refines_example =
    insert_match_at-refines (pos 0) 5 1 store 2 in_tray refl unique_ids takes_time 1 1

order_test : move_to 1 1 2 (orders_of (pos 0) 5 store) 1 ≡ 0 ∷ 2 ∷ 1 ∷ []
unfolding scheduled_on_court sort ◌-ℤ◌
order_test = refl

-- The first match of the court, selected.
abbrev selected : GridMatchRef
selected = record {
  match_id = 1;
  court_id = 1;
  position = 0;
  played = some false;
  locked = some false;
}

first_of_court : get_elem? (orders_of (pos 0) 5 store 1) 0 ≡ some 0
unfolding scheduled_on_court sort ◌-ℤ◌
first_of_court = refl

-- A tap on the last line of the court moves it behind the second match.
tap_last_line_test :
    orders_of (pos 0) 5 (apply_to_store (pos 0) 5 store (place selected 1 2).actions) 1 ≡ 1 ∷ 0 ∷ []
unfolding apply_to_store sort get put write ◌+ℤ◌ ◌-ℤ◌ scheduled_on_court place
tap_last_line_test = refl

last_line : 2 ≤ length (orders_of (pos 0) 5 store 1)
unfolding scheduled_on_court sort ◌-ℤ◌
last_line = omega arith

place-drop_at_example :
    orders_of (pos 0) 5 (apply_to_store (pos 0) 5 store (place selected 1 2).actions) 1
    ≡ drop_at 2 0 (orders_of (pos 0) 5 store 1)
place-drop_at_example =
    place-drop_at (pos 0) 5 store unique_ids takes_time selected 0 (game 1 0) refl refl
      first_of_court 1 2 last_line 1
