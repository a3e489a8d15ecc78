-- ===== src/Conflicts/Tests.antt =====
-- Tests of the conflict engine, after frontend/src/logic/planning/conflicts.test.ts.
use bracket.Base.{ℕ, ◌*◌, ◌≡◌, ◌↔◌, refl, true, false, List, [], ◌∷◌, none, some}
use bracket.Base.Int.{pos, ◌+ℤ◌}
use bracket.Base.{arith}
use bracket.Base.Keyed.{UniqueBy}
use bracket.Conflicts.Described.{all_items}
use bracket.Conflicts.{
  ConflictInput, ConflictMatch, ConflictStage, single_elimination, get_all_matches, is_definitive,
}
use bracket.Conflicts.Compute.Clean.{IsClean, IsClean-iff}
use bracket.Conflicts.Flags.{FlagKey, flag_of, empty_flags, Flags, ok, mark, set_true}
use bracket.Conflicts.Listed.{is_listed}
use bracket.Conflicts.Precedence.{feeder_ids}
use bracket.Conflicts.Compute.{everything, compute_conflict_flags}
use bracket.Conflicts.Compute.Exact.{conflicts_of, Returns, compute_exact}

abbrev slot : ℕ → ℕ → ConflictInput
slot id team = record { id = id; team_id = some team; winner_from_stage_item_id = none }

-- A match of slots a and b on court 1 that starts `start` minutes after the epoch.
abbrev game : ℕ → ℕ → ℕ → ℕ → ConflictMatch
game id start a b = record {
  id = id;
  start_time = some (pos (start * 60_000));
  duration_minutes = 10;
  court_id = some 1;
  stage_item_input1 = some (slot a a);
  stage_item_input2 = some (slot b b);
  stage_item_input1_id = some a;
  stage_item_input2_id = some b;
  stage_item_input1_winner_from_match_id = none;
  stage_item_input2_winner_from_match_id = none;
  referee_stage_item_input_id = none;
  referee = none;
}

-- Slots 1 and 2 play at 0:00, slots 1 and 3 at 0:05, and the final of the winners at 0:15.
abbrev final : ConflictMatch
final = record (game 3 15 4 5) {
  stage_item_input1_winner_from_match_id = some 1;
  stage_item_input2_winner_from_match_id = some 2;
}

abbrev stages : List ConflictStage
stages =
    record {
      stage_items =
          record {
            id = 1;
            type = single_elimination;
            inputs = [];
            rounds =
                record { id = 1; matches = game 1 0 1 2 ∷ game 2 5 1 3 ∷ [] }
                ∷ record { id = 2; matches = final ∷ [] }
                ∷ [];
          }
          ∷ [];
    }
    ∷ []

compute_test :
    compute_conflict_flags stages 5 everything true
    ≡ ok (
        (1, record empty_flags { stage_item_input1_conflict = true })
        ∷ (2, record empty_flags { stage_item_input1_conflict = true; short_break_conflict = true })
        ∷ (3, record empty_flags { short_break_conflict = true })
        ∷ [])
unfolding compute_conflict_flags is_definitive ◌+ℤ◌ mark feeder_ids set_true
compute_test = refl

compute_exact_example :
    (flags : Flags) × (compute_conflict_flags stages 5 everything true ≡ ok flags)
    × Returns (is_listed (get_all_matches stages)) (conflicts_of stages 5 true) flags
compute_exact_example = compute_exact stages 5 true

-- The flags of `compute_test`.
abbrev found_flags : Flags
found_flags =
    (1, record empty_flags { stage_item_input1_conflict = true })
    ∷ (2, record empty_flags { stage_item_input1_conflict = true; short_break_conflict = true })
    ∷ (3, record empty_flags { short_break_conflict = true })
    ∷ []

unique_matches : UniqueBy (λ m. m.id) (get_all_matches stages)
unfolding get_all_matches
unique_matches = (
  ((λ e. ground (arith, e)), ((λ e. ground (arith, e)), tt)),
  (((λ e. ground (arith, e)), tt), (tt, tt)),
)

unique_items : UniqueBy (λ item. item.id) (all_items stages)
unique_items = (tt, tt)

IsClean-iff_example :
    ((j : ℕ) (k : FlagKey) → flag_of found_flags j k ≡ false) ↔ IsClean stages 5 true
IsClean-iff_example = IsClean-iff stages 5 true unique_matches unique_items found_flags compute_test
