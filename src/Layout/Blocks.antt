-- ===== src/Layout/Blocks.antt =====
-- layout.ts: the blocks of a court, and which of them are locked.
use bracket.Base.{
  ℕ, suc, ◌+◌, ◌≤◌, ◌≡◌, refl, sym, ap, is_some, filter, Bool, true, false, List, [], ◌∷◌, map,
  if◌then◌else◌, arith, any, fold, Bool-cases, inl, inr,
}
use mathlib.Core.Path.{subst}
use mathlib.Core.List.{Perm}
use bracket.Base.Int.{ℤ}
use bracket.Base.Order.{sort-perm}
use bracket.Base.Sorted.{IsSorted, sort-IsSorted}
use bracket.Layout.{
  LayoutMatch, is_played, count_locked, locked_count, block, push_blocks, court_blocks,
  scheduled_matches, starts_first,
}

-- The number of matches up to the last played one.
abbrev pub played_prefix : List LayoutMatch → ℕ
unfolding is_played
played_prefix [] = 0
played_prefix (m ∷ ms) = if any is_played (m ∷ ms) then suc (played_prefix ms) else 0

played_prefix-never : (ms : List LayoutMatch) → any is_played ms ≡ false → played_prefix ms ≡ 0
unfolding played_prefix
played_prefix-never [] h = refl
played_prefix-never (m ∷ ms) h = ground (arith, h)

fold-count_locked :
    (ms : List LayoutMatch) (count index : ℕ)
    → (fold count_locked (count, index) ms).0
      ≡ (if any is_played ms then index + played_prefix ms else count)
unfolding count_locked played_prefix
fold-count_locked [] count index = refl
fold-count_locked (m ∷ ms) count index = elim (Bool-cases (is_played m)) [
  | inl e ↦ ground (arith, e, fold-count_locked ms (suc index) (suc index), played_prefix-never ms)
  | inr e ↦ ground (arith, e, fold-count_locked ms count (suc index), played_prefix-never ms)
]

pub locked_count-played_prefix : (ms : List LayoutMatch) → locked_count ms ≡ played_prefix ms
unfolding locked_count played_prefix
locked_count-played_prefix [] = refl
locked_count-played_prefix (m ∷ ms) = ground (arith, fold-count_locked (m ∷ ms) 0 0)

-- For every match, is it or a later one played?
abbrev pub played_later : List LayoutMatch → List Bool
unfolding is_played
played_later [] = []
played_later (m ∷ ms) = any is_played (m ∷ ms) ∷ played_later ms

asymmetric : (a b : LayoutMatch) → starts_first a b ≡ true → starts_first b a ≡ false
unfolding starts_first
asymmetric a b h = ground (arith, h)

transitive :
    (a b c : LayoutMatch)
    → starts_first b a ≡ false
    → starts_first c b ≡ false
    → starts_first c a ≡ false
unfolding starts_first
transitive a b c h k = ground (arith, h, k)

module _ (tournament_start : ℤ) (default_break_minutes : ℕ) where
  push_blocks-locked :
      (ms : List LayoutMatch) (count pushed : ℕ)
      → (any is_played ms ≡ true → count ≡ pushed + played_prefix ms)
      → (any is_played ms ≡ false → count ≤ pushed)
      → map (λ b. b.locked) (push_blocks tournament_start default_break_minutes count pushed ms)
        ≡ played_later ms
  unfolding push_blocks block played_later
  push_blocks-locked [] count pushed h k = refl
  push_blocks-locked (m ∷ ms) count pushed h k = elim (Bool-cases (any is_played (m ∷ ms))) [
    | inl e ↦
        let rest =
          push_blocks-locked ms count (suc pushed) (λ later. ground (arith, h e, e, later))
            (λ never. ground (arith, h e, e, never, played_prefix-never ms never)) in
        ground (arith, h e, e, rest)
    | inr e ↦
        let rest =
          push_blocks-locked ms count (suc pushed) (λ later. ground (arith, e, later))
            (λ never. omega (arith, k e)) in
        ground (arith, k e, e, rest)
  ]

  push_blocks-match_ref :
      (ms : List LayoutMatch) (count pushed : ℕ)
      → map (λ b. b.match_ref) (push_blocks tournament_start default_break_minutes count pushed ms)
        ≡ ms
  unfolding push_blocks block
  push_blocks-match_ref [] count pushed = refl
  push_blocks-match_ref (m ∷ ms) count pushed =
      ap (λ xs. m ∷ xs) (push_blocks-match_ref ms count (suc pushed))

  -- The blocks of a court show exactly its matches with a start time, each one once, none before one
  -- that starts earlier; and a block is locked exactly if its match or a later one of the court is
  -- played.
  pub court_blocks_locked :
      (matches : List LayoutMatch)
      → let blocks = court_blocks tournament_start default_break_minutes matches in
        let shown = map (λ b. b.match_ref) blocks in
        Perm shown (filter (λ m. is_some m.start_time) matches)
        × IsSorted starts_first shown
        × (map (λ b. b.locked) blocks ≡ played_later shown)
  unfolding court_blocks scheduled_matches
  court_blocks_locked matches =
      let scheduled = scheduled_matches matches in
      subst
        (λ shown.
          Perm shown (filter (λ m. is_some m.start_time) matches)
          × IsSorted starts_first shown
          × (map (λ b. b.locked) (court_blocks tournament_start default_break_minutes matches)
              ≡ played_later shown))
        (sym (push_blocks-match_ref scheduled (locked_count scheduled) 0))
        (
          sort-perm starts_first (filter (λ m. is_some m.start_time) matches),
          sort-IsSorted starts_first asymmetric transitive
              (filter (λ m. is_some m.start_time) matches),
          push_blocks-locked scheduled (locked_count scheduled) 0
              (λ _. omega (arith, locked_count-played_prefix scheduled))
              (λ never.
                omega (
                  arith,
                  locked_count-played_prefix scheduled,
                  played_prefix-never scheduled never,
                )),
        )
