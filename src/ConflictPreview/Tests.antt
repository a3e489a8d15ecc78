-- ===== src/ConflictPreview/Tests.antt =====
-- Tests of the conflict preview, after frontend/src/logic/planning/conflict_preview.test.ts.
use bracket.Base.{ℕ, ◌≡◌, refl, false, List, [], ◌∷◌, none, some, any}
use bracket.Base.Int.{pos, ◌+ℤ◌}
use bracket.Conflicts.{
  ConflictInput, ConflictMatch, ConflictStage, single_elimination, is_definitive,
}
use bracket.Conflicts.Flags.{ok, mark, set_true}
use bracket.Conflicts.Precedence.{feeder_ids}
use bracket.Optimistic.{write}
use bracket.Layout.{MatchBlock, ScheduleGridLayout}
use bracket.Selection.{SelectionState, active, tray_match_selected}
use bracket.ConflictPreview.{
  ConflictPreview, compute_conflict_preview, has_line, has_target, get_selected_match_id,
}
use bracket.ConflictPreview.Introduces.{introduces}
use bracket.ConflictPreview.Loops.Adds.{court_line, any_target}
use bracket.ConflictPreview.Exact.{preview_exact}

abbrev slot : ℕ → ConflictInput
slot id = record { id = id; team_id = some id; winner_from_stage_item_id = none }

abbrev game : ℕ → ℕ → ℕ → ConflictMatch
game id a b = record {
  id = id;
  start_time = none;
  duration_minutes = 10;
  court_id = none;
  stage_item_input1 = some (slot a);
  stage_item_input2 = some (slot b);
  stage_item_input1_id = some a;
  stage_item_input2_id = some b;
  stage_item_input1_winner_from_match_id = none;
  stage_item_input2_winner_from_match_id = none;
  referee_stage_item_input_id = none;
  referee = none;
}

-- Match 1 is played on court 1 at the start, match 2 of the same team waits in the tray.
abbrev stages : List ConflictStage
stages =
    record {
      stage_items =
          record {
            id = 1;
            type = single_elimination;
            inputs = [];
            rounds =
                record {
                  id = 1;
                  matches =
                      record (game 1 1 2) { court_id = some 1; start_time = some (pos 0) }
                      ∷ game 2 1 3
                      ∷ [];
                }
                ∷ [];
          }
          ∷ [];
    }
    ∷ []

abbrev shown : MatchBlock
shown = record {
  match_ref = record { id = 1; duration_minutes = 10; start_time = some (pos 0); state = none };
  start_minutes = pos 0;
  duration_minutes = 10;
  end_minutes = pos 600_000;
  start_time = pos 0;
  default_break_minutes = 5;
  locked = false;
}

abbrev layout : ScheduleGridLayout
layout = record {
  courts =
      record { court = record { id = 1; name = [] }; blocks = shown ∷ [] }
      ∷ record { court = record { id = 2; name = [] }; blocks = [] }
      ∷ [];
  total_minutes = some 3_600_000;
  ticks = [];
  default_break_minutes = 5;
}

abbrev selection : SelectionState
selection = active (tray_match_selected 2)

preview_exact_example :
    (preview : ConflictPreview) × (compute_conflict_preview stages layout selection (pos 0) false
      ≡ ok preview)
    × ((c i : ℕ)
        → has_line preview c i
          ≡ any (court_line (introduces stages 5 (pos 0) false) selection c i) layout.courts)
    × ((id : ℕ)
        → has_target preview id
          ≡ any
              (λ timeline.
                any_target
                  (introduces stages 5 (pos 0) false)
                  selection
                  timeline.court.id
                  0
                  timeline.blocks
                  id)
              layout.courts)
unfolding get_selected_match_id
preview_exact_example = preview_exact stages layout selection (pos 0) false 2 refl

-- Beside match 1 on the other court, the team would play twice at once.
preview_test :
    compute_conflict_preview stages layout selection (pos 0) false
    ≡ ok (record { insertion_lines = (2, 0) ∷ []; swap_targets = [] })
unfolding compute_conflict_preview is_definitive feeder_ids write ◌+ℤ◌ mark set_true
preview_test = refl
