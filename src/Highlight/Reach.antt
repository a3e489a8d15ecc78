-- ===== src/Highlight/Reach.antt =====
-- highlight.ts: the recursion returns, and it finds exactly the matches that lead to the target.
use bracket.Base.{
  ℕ, zero, suc, ◌<◌, ◌≡◌, refl, sym, ap, ◌∙◌, ◌↔◌, ◌⊎◌, inl, inr, Bool, true, false, List, [], ◌∷◌,
  Option, some, arith, Bool-cases, Option-cases,
}
use mathlib.Core.Path.{subst}
use bracket.Base.Store.{get}
use bracket.Highlight.{
  HighlightTarget, MatchLike, MatchLookupLike, source_match_ids, is_direct, some_source,
  match_involves, match_involves_highlight,
}

-- The number is an element of the list.
abbrev pub Among : ℕ → List ℕ → Type 0
Among id [] = ⊥
Among id (x ∷ xs) = (x ≡ id) ⊎ Among id xs

-- The call returns, and its result says whether the statement holds.
abbrev pub Answers : Option Bool → Type 0 → Type 0
Answers result P = (b : Bool) × (result ≡ some b) × ((b ≡ true) ↔ P)

module _ (target : HighlightTarget) (lookup : MatchLookupLike) where
  -- The match has the target in one of its slots, or some match that feeds it, and is known, leads
  -- to the target.
  pub data Reaches : MatchLike → Type 0 where
    here : (m : MatchLike) → is_direct target m ≡ true → Reaches m
    via :
        (m source : MatchLike) (id : ℕ)
        → Among id (source_match_ids m)
        → get id lookup ≡ some source
        → Reaches source
        → Reaches m

  abbrev pub SomeSource : List ℕ → Type 0
  SomeSource ids =
      (id : ℕ) × (source : MatchLike) × Among id ids
      × (get id lookup ≡ some source)
      × Reaches source

  skip : (i : ℕ) (ids : List ℕ) → SomeSource ids → SomeSource (i ∷ ids)
  skip i ids (id, source, among, e, r) = (id, source, inr among, e, r)

  -- A source that leads nowhere does not count.
  without_first :
      (i : ℕ) (ids : List ℕ)
      → ((source : MatchLike) → get i lookup ≡ some source → Reaches source → ⊥)
      → SomeSource (i ∷ ids)
      → SomeSource ids
  without_first i ids h (id, source, inl same, e, r) =
      absurd (h source (ap (λ x. get x lookup) same ∙ e) r)
  without_first i ids h (id, source, inr among, e, r) = (id, source, among, e, r)

  some_source-Answers :
      (involves : MatchLike → Option Bool) (ids : List ℕ)
      → ((id : ℕ) (source : MatchLike)
          → Among id ids
          → get id lookup ≡ some source
          → Answers (involves source) (Reaches source))
      → Answers (some_source involves lookup ids) (SomeSource ids)
  unfolding some_source
  some_source-Answers involves [] h = (false, refl, (λ e. ground (arith, e), λ k. absurd k.2))
  some_source-Answers involves (i ∷ ids) h =
      let (rest, computed, answers) =
        some_source-Answers involves ids (λ id source among. h id source (inr among)) in
      elim (Option-cases (get i lookup)) [
        | inl e ↦ (
          rest,
          rw (some_source, e) computed,
          (
            λ k. skip i ids (answers.0 k),
            λ k. answers.1 (without_first i ids (λ source f r. ground (arith, e, f)) k),
          ),
        )
        | inr (source, e) ↦
            let (found, returned, says) = h i source (inl refl) e in
            elim (Bool-cases found) [
              | inl holds ↦ (
                true,
                rw (some_source, e, returned, holds),
                (λ k. (i, source, inl refl, e, says.0 holds), λ k. refl),
              )
              | inr fails ↦ (
                rest,
                rw (some_source, e, returned, fails) computed,
                (
                  λ k. skip i ids (answers.0 k),
                  λ k. answers.1 (
                      without_first i ids
                        (λ other f r.
                          let same : some source ≡ some other = sym e ∙ f in
                          let equal : other ≡ source = ground (arith, same) in
                          let reached : found ≡ true = says.1 (subst Reaches equal r) in
                          ground (arith, reached, fails))
                        k),
                ),
              )
            ]
      ]

  source_of :
      (m : MatchLike) → is_direct target m ≡ false → Reaches m → SomeSource (source_match_ids m)
  source_of m fails (here _ e) = ground (arith, fails, e)
  source_of m fails (via _ source id among e r) = (id, source, among, e, r)

  -- The rank decreases from a match to the matches that feed it: no match feeds itself.
  abbrev pub IsRanked : (MatchLike → ℕ) → Type 0
  IsRanked rank =
      (m source : MatchLike) (id : ℕ)
      → Among id (source_match_ids m)
      → get id lookup ≡ some source
      → rank source < rank m

  match_involves-Answers :
      (rank : MatchLike → ℕ) (fuel : ℕ) (m : MatchLike)
      → IsRanked rank
      → rank m < fuel
      → Answers (match_involves fuel target lookup m) (Reaches m)
  unfolding match_involves
  match_involves-Answers rank zero m ranked h = let never : ⊥ = omega (arith, h) in absurd never
  match_involves-Answers rank (suc fuel) m ranked h =
      let (found, computed, answers) =
        some_source-Answers (match_involves fuel target lookup) (source_match_ids m)
          (λ id source among e.
            match_involves-Answers rank fuel source ranked
              (omega (arith, h, ranked m source id among e))) in
      elim (Bool-cases (is_direct target m)) [
        | inl holds ↦ (true, rw holds, ((λ k. here m holds), λ k. refl))
        | inr fails ↦ (
          found,
          rw fails computed,
          (
            λ k. let (id, source, among, e, r) = answers.0 k in via m source id among e r,
            λ r. answers.1 (source_of m fails r),
          ),
        )
      ]

  -- If no match feeds itself, even through other matches, then with a rank less than the fuel the
  -- recursion returns, and its result says whether the match leads to the target.
  pub match_involves_highlight-Reaches :
      (rank : MatchLike → ℕ) (fuel : ℕ) (m : MatchLike)
      → IsRanked rank
      → rank m < fuel
      → (b : Bool) × (match_involves_highlight fuel m (some target) lookup ≡ some b)
        × ((b ≡ true) ↔ Reaches m)
  unfolding match_involves_highlight
  match_involves_highlight-Reaches = match_involves-Answers
