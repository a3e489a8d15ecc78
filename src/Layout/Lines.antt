-- ===== src/Layout/Lines.antt =====
-- layout.ts: the places where a match can be inserted on a court.
use bracket.Base.{
  ℕ, zero, suc, ◌+◌, ◌-◌, ◌≤◌, ◌≡◌, refl, ap, ◌∙◌, List, [], ◌∷◌, map, leb, arith, filter, length,
}
use bracket.Layout.{
  MatchBlock, InsertionLine, later_lines, all_lines, compute_insertion_lines, locked_blocks,
}

-- The `n` numbers from `i` on.
abbrev pub range : ℕ → ℕ → List ℕ
range i zero = []
range i (suc n) = i ∷ range (suc i) n

later_lines-index :
    (default_break_minutes i : ℕ) (previous : MatchBlock) (blocks : List MatchBlock)
    → map (λ line. line.index) (later_lines default_break_minutes i previous blocks)
      ≡ range i (suc (length blocks))
unfolding later_lines
later_lines-index default_break_minutes i previous [] = refl
later_lines-index default_break_minutes i previous (next ∷ blocks) =
    ap (λ xs. i ∷ xs) (later_lines-index default_break_minutes (suc i) next blocks)

all_lines-index :
    (first : MatchBlock) (blocks : List MatchBlock)
    → map (λ line. line.index) (all_lines first blocks) ≡ range 0 (suc (suc (length blocks)))
unfolding all_lines
all_lines-index first blocks =
    ap (λ xs. 0 ∷ xs) (later_lines-index first.default_break_minutes 1 first blocks)

map-filter_index :
    (n : ℕ) (lines : List InsertionLine)
    → map (λ line. line.index) (filter (λ line. leb n line.index) lines)
      ≡ filter (leb n) (map (λ line. line.index) lines)
map-filter_index n [] = refl
map-filter_index n (line ∷ lines) = ground (arith, map-filter_index n lines)

filter-range_above : (n i k : ℕ) → n ≤ i → filter (leb n) (range i k) ≡ range i k
filter-range_above n i zero h = refl
filter-range_above n i (suc k) h =
    let rest = filter-range_above n (suc i) k (omega (arith, h)) in ground (arith, rest, h)

filter-range : (j n i k c : ℕ) → n ≡ i + j → c ≡ j + k → filter (leb n) (range i c) ≡ range n k
filter-range zero n i k c h g =
    let at : n ≡ i = omega (arith, h) in
    let all : c ≡ k = omega (arith, g) in rw (at, all) (filter-range_above i i k (omega arith))
filter-range (suc j) n i k zero h g = ground (arith, g)
filter-range (suc j) n i k (suc c) h g =
    let rest = filter-range j n (suc i) k c (omega (arith, h)) (omega (arith, g)) in
    ground (arith, rest, h)

locked_blocks-le : (blocks : List MatchBlock) → locked_blocks blocks ≤ length blocks
locked_blocks-le [] = omega arith
locked_blocks-le (b ∷ blocks) = ground (arith, locked_blocks-le blocks)

-- A court offers, once each and from the top down, exactly the positions from the number of its
-- locked matches up to the number of its matches.
pub insertion_positions :
    (blocks : List MatchBlock)
    → map (λ line. line.index) (compute_insertion_lines blocks)
      ≡ range (locked_blocks blocks) (suc (length blocks) - locked_blocks blocks)
unfolding compute_insertion_lines
insertion_positions [] = refl
insertion_positions (first ∷ blocks) =
    map-filter_index (locked_blocks (first ∷ blocks)) (all_lines first blocks)
    ∙ ap (filter (leb (locked_blocks (first ∷ blocks)))) (all_lines-index first blocks)
    ∙ filter-range locked locked 0 (suc (suc (length blocks)) - locked) (suc (suc (length blocks)))
        (omega arith) (omega (arith, locked_blocks-le (first ∷ blocks)))
  where
    locked : ℕ
    locked = locked_blocks (first ∷ blocks)
