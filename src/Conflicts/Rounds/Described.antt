-- ===== src/Conflicts/Rounds/Described.antt =====
-- conflicts.ts: the round order pass sees the rounds that are described.
use bracket.Base.{
  ◌≡◌, refl, sym, ap, ◌∙◌, Bool, not, ◌&&◌, List, [], ◌∷◌, Option, none, some, arith, any,
  any_adjacent, any-flat_map, any_congr, any_never, false, ltb,
}
use bracket.Base.Int.{ℤ, ltb_ℤ}
use bracket.Base.Keyed.{holds}
use bracket.Base.Order.{sort}
use bracket.Conflicts.{ConflictMatch, ConflictRound, ConflictStage}
use bracket.Conflicts.Flags.{some_is}
use bracket.Conflicts.Described.{ends_after, all_items, starts_before_round}
use bracket.Conflicts.Precedence.{latest_end}
use bracket.Conflicts.Precedence.Times.{latest_end-any}
use bracket.Conflicts.Rounds.{sorted_rounds, is_round_robin, round_too_early}

any_adjacent_congr :
    (r s : ConflictRound → ConflictRound → Bool) (xs : List ConflictRound)
    → ((x y : ConflictRound) → r x y ≡ s x y)
    → any_adjacent r xs ≡ any_adjacent s xs
any_adjacent_congr r s [] h = refl
any_adjacent_congr r s (x ∷ []) h = refl
any_adjacent_congr r s (x ∷ y ∷ ys) h = ground (arith, h x y, any_adjacent_congr r s (y ∷ ys) h)

-- A test of a time that may be missing, with a loop inside and then outside.
swap_some :
    (ms : List ConflictMatch) (o : Option ℤ)
    → some_is (λ end. any (λ m. some_is (λ start. ltb_ℤ start end) m.start_time) ms) o
      ≡ any (λ m. some_is (λ start. some_is (λ end. ltb_ℤ start end) o) m.start_time) ms
swap_some ms none =
    sym (any_congr _ (λ m. false) (λ m. absent m.start_time none refl) ms ∙ any_never ms)
  where
    absent :
        (o latest : Option ℤ)
        → latest ≡ none
        → some_is (λ start. some_is (λ end. ltb_ℤ start end) latest) o ≡ false
    absent none latest e = refl
    absent (some a) latest e = rw e refl
swap_some ms (some end) = refl

pair_described :
    (p c : ConflictRound)
    → some_is
        (λ end. any (λ m. some_is (λ start. ltb_ℤ start end) m.start_time) c.matches)
        (latest_end none p.matches)
      ≡ any (λ m. holds (λ start. any (ends_after start) p.matches) m.start_time) c.matches
pair_described p c =
    swap_some c.matches (latest_end none p.matches)
    ∙ any_congr _ _ (λ m. under m.start_time) c.matches
  where
    under :
        (o : Option ℤ)
        → some_is (λ start. some_is (λ end. ltb_ℤ start end) (latest_end none p.matches)) o
          ≡ holds (λ start. any (ends_after start) p.matches) o
    under none = refl
    under (some start) = latest_end-any start p.matches none

pub round_too_early-described :
    (stages : List ConflictStage) → round_too_early stages ≡ starts_before_round stages
unfolding sorted_rounds
round_too_early-described stages =
    sym (any-flat_map _ (λ stage. stage.stage_items) stages)
    ∙ any_congr _ _
        (λ item.
          ap (λ b. not (is_round_robin item.type) && b)
            (any_adjacent_congr _ _ (sort (λ a b. ltb a.id b.id) item.rounds) pair_described))
        (all_items stages)
