-- ===== src/Layout/Tests.antt =====
-- Tests of the grid layout, after frontend/src/logic/planning/layout.test.ts.
use bracket.Base.{
  ◌≤◌, ℕ, suc, ◌+◌, ◌*◌, ◌≡◌, refl, Bool, true, false, List, [], ◌∷◌, map, filter, is_some, none,
  some, arith,
}
use bracket.Base.Int.{pos, ◌+ℤ◌}
use mathlib.Core.List.{Perm}
use bracket.Base.Order.{sort}
use bracket.Base.Sorted.{IsSorted}
use bracket.Layout.{
  LayoutMatch, MatchBlock, ScheduleLayoutInput, ScheduleGridLayout, completed, block, court_blocks,
  compute_breaks, compute_insertion_lines, compute_schedule_layout, starts_first,
}
use bracket.Layout.Blocks.{court_blocks_locked, played_later}
use bracket.Layout.Lines.{insertion_positions}
use bracket.Layout.Pauses.{IsSpaced, IsTiling, breaks_tile}
use bracket.Layout.Ruler.{Reaches, grid_height, steps}

abbrev played : LayoutMatch
played = record { id = 1; duration_minutes = 10; start_time = some (pos 0); state = some completed }

abbrev upcoming : LayoutMatch
upcoming = record { id = 2; duration_minutes = 10; start_time = some (pos 900_000); state = none }

abbrev waiting : LayoutMatch
waiting = record { id = 3; duration_minutes = 10; start_time = none; state = none }

abbrev blocks : List MatchBlock
blocks = court_blocks (pos 0) 5 (upcoming ∷ waiting ∷ played ∷ [])

blocks_test : map (λ b. b.match_ref.id) blocks ≡ 1 ∷ 2 ∷ []
unfolding court_blocks block sort
blocks_test = refl

abbrev input : ScheduleLayoutInput
input = record {
  courts = record { id = 7; name = [] } ∷ [];
  matches_by_court_id = (7, upcoming ∷ played ∷ []) ∷ [];
  tournament_start_time = pos 0;
  default_break_minutes = 5;
  tick_interval_minutes = 30;
  min_total_minutes = 60;
}

court_blocks_locked_example :
    Perm
      (map (λ b. b.match_ref) blocks)
      (filter (λ m. is_some m.start_time) (upcoming ∷ waiting ∷ played ∷ []))
    × IsSorted starts_first (map (λ b. b.match_ref) blocks)
    × (map (λ b. b.locked) blocks ≡ played_later (map (λ b. b.match_ref) blocks))
court_blocks_locked_example = court_blocks_locked (pos 0) 5 (upcoming ∷ waiting ∷ played ∷ [])

abbrev shown : LayoutMatch → ℕ → Bool → MatchBlock
shown m start locked = record {
  match_ref = m;
  start_minutes = pos start;
  duration_minutes = 10;
  end_minutes = pos (start + 600_000);
  start_time = pos start;
  default_break_minutes = 5;
  locked = locked;
}

abbrev two_blocks : List MatchBlock
two_blocks = shown played 0 true ∷ shown upcoming 900_000 false ∷ []

insertion_positions_example :
    map (λ line. line.index) (compute_insertion_lines two_blocks) ≡ 1 ∷ 2 ∷ []
insertion_positions_example = insertion_positions two_blocks

two_blocks-IsSpaced : IsSpaced (pos 0) two_blocks
unfolding ◌+ℤ◌
two_blocks-IsSpaced = (omega arith, refl, (omega arith, refl, tt))

breaks_tile_example : IsTiling (pos 0) (pos 0) (compute_breaks two_blocks) two_blocks
breaks_tile_example = breaks_tile two_blocks two_blocks-IsSpaced

grid_height_example :
    (grid : ScheduleGridLayout) × (q : ℕ) × (compute_schedule_layout input ≡ some grid)
    × (grid.total_minutes ≡ some (q * (30 * 60_000)))
    × (map (λ t. t.offset_minutes) grid.ticks ≡ steps 0 (30 * 60_000) (suc q))
    × Reaches input grid.courts (q * (30 * 60_000))
    × ((r : ℕ) → Reaches input grid.courts (r * (30 * 60_000)) → q ≤ r)
grid_height_example = grid_height input (omega arith)
