-- ===== src/Layout/Pauses.antt =====
-- layout.ts: the breaks of a court.
use bracket.Base.{ℕ, zero, suc, ◌≡◌, refl, sym, ap, ◌∙◌, List, [], ◌∷◌, arith}
use bracket.Base.Int.{ℤ, pos, negsuc, ◌+ℤ◌, ◌-ℤ◌, ◌≤ℤ◌, max_ℤ, int_laws, add_sub_cancel}
use bracket.Conflicts.{millis}
use bracket.Layout.{MatchBlock, BreakBlock, later_breaks, compute_breaks}

-- The blocks do not overlap, start at an instant or later, and last for their durations.
abbrev pub IsSpaced : ℤ → List MatchBlock → Type 0
IsSpaced from [] = Unit
IsSpaced from (b ∷ bs) =
    (from ≤ℤ b.start_minutes)
    × (b.end_minutes ≡ b.start_minutes +ℤ millis b.duration_minutes)
    × IsSpaced b.end_minutes bs

-- The breaks and the blocks follow each other from an instant on without gaps, each break belongs
-- to the match behind it, and the last block ends when the durations of both are over.
abbrev pub IsTiling : ℤ → ℤ → List BreakBlock → List MatchBlock → Type 0
IsTiling from now [] [] = from ≡ now
IsTiling from now [] (b ∷ bs) = ⊥
IsTiling from now (k ∷ ks) [] = ⊥
IsTiling from now (k ∷ ks) (b ∷ bs) =
    (k.start_minutes ≡ from)
    × (k.end_minutes ≡ b.start_minutes)
    × (k.match_id ≡ b.match_ref.id)
    × (k.locked ≡ b.locked)
    × IsTiling b.end_minutes ((now +ℤ k.duration_minutes) +ℤ millis b.duration_minutes) ks bs

max_nonneg : (d : ℤ) → pos 0 ≤ℤ d → max_ℤ (pos 0) d ≡ d
max_nonneg (pos zero) h = refl
max_nonneg (pos (suc n)) h = ground arith
max_nonneg (negsuc n) h = ground (arith, h)

add_gap : (from to now : ℤ) → from ≡ now → from ≤ℤ to → now +ℤ max_ℤ (pos 0) (to -ℤ from) ≡ to
add_gap from to now e h =
    ap (λ d. now +ℤ d) (max_nonneg (to -ℤ from) (omega (int_laws, h)))
    ∙ ap (λ a. a +ℤ (to -ℤ from)) (sym e)
    ∙ add_sub_cancel from to

from_zero : (to : ℤ) → pos 0 ≤ℤ to → pos 0 +ℤ max_ℤ (pos 0) to ≡ to
from_zero to h = ap (λ d. pos 0 +ℤ d) (max_nonneg to h) ∙ omega int_laws

later_breaks-tile :
    (i : ℕ) (previous : MatchBlock) (blocks : List MatchBlock) (now : ℤ)
    → previous.end_minutes ≡ now
    → IsSpaced previous.end_minutes blocks
    → IsTiling previous.end_minutes now (later_breaks i previous blocks) blocks
unfolding later_breaks
later_breaks-tile i previous [] now e s = e
later_breaks-tile i previous (next ∷ blocks) now e (after, lasts, s) = (
  refl,
  refl,
  refl,
  refl,
  later_breaks-tile (suc i) next blocks _
      (lasts
        ∙ ap (λ t. t +ℤ millis next.duration_minutes)
            (sym (add_gap previous.end_minutes next.start_minutes now e after)))
      s,
)

-- On a court whose matches do not overlap, the breaks and the matches fill the time from the
-- tournament start to the end of the last match without gaps: each break starts where the match
-- before it ends, ends where the match that it belongs to starts, and is locked with that match.
pub breaks_tile :
    (blocks : List MatchBlock)
    → IsSpaced (pos 0) blocks
    → IsTiling (pos 0) (pos 0) (compute_breaks blocks) blocks
unfolding compute_breaks later_breaks
breaks_tile [] s = refl
breaks_tile (first ∷ blocks) (after, lasts, s) = (
  refl,
  refl,
  refl,
  refl,
  later_breaks-tile 1 first blocks _
      (lasts
        ∙ ap (λ t. t +ℤ millis first.duration_minutes) (sym (from_zero first.start_minutes after)))
      s,
)
