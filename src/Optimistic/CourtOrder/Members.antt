-- ===== src/Optimistic/CourtOrder/Members.antt =====
-- optimistic.ts: which objects a court lists, and by what it sorts them.
use bracket.Base.{
  refl, ℕ, zero, suc, ◌+◌, ◌<◌, ◌≡◌, ◌∙◌, Bool, true, false, ◌&&◌, List, [], ◌∷◌, Option, none,
  some, arith, inl, inr, Bool-cases, Option-cases, is_num, is_some, ◌⊎◌, length, get_elem?, filter,
  All-map, any, ltb, leb, ◌==◌, ==_iff,
}
use bracket.Base.Int.{ℤ, pos, ltb_ℤ}
use bracket.Base.Order.{sort}
use bracket.Base.Sorted.{filter-true}
use bracket.Base.Grouping.{any-filter}
use bracket.Base.Unique.{includes, any-sort, sort_congr}
use bracket.Conflicts.{ConflictMatch}
use bracket.Optimistic.{Store, places, on_court, starts_earlier, scheduled_on_court, start_minutes}

includes-places :
    (i j : ℕ) (store : Store) → includes (places i store) j ≡ (leb i j && ltb j (i + length store))
includes-places i j [] = ground arith
includes-places i j (m ∷ ms) = ground (arith, includes-places (suc i) j ms)

get_elem?-lt :
    (store : Store) (j : ℕ) (m : ConflictMatch) → get_elem? store j ≡ some m → j < length store
get_elem?-lt [] j m h = ground (arith, h)
get_elem?-lt (x ∷ xs) zero m h = omega arith
get_elem?-lt (x ∷ xs) (suc j) m h = omega (arith, get_elem?-lt xs j m h)

any_at : (p : ℕ → Bool) (j : ℕ) (xs : List ℕ) → any (λ x. p x && x == j) xs ≡ (p j && includes xs j)
any_at p j [] = ground arith
any_at p j (x ∷ xs) = elim (Bool-cases (x == j)) [
  | inl e ↦ let same : x ≡ j = (==_iff x j).0 e in rw same (ground (arith, any_at p j xs))
  | inr e ↦ ground (arith, any_at p j xs, e)
]

module _ (tournament_start : ℤ) (default_break_minutes : ℕ) where
  abbrev pub Known : Store → ℕ → Type 0
  Known store j = (m : ConflictMatch) × (get_elem? store j ≡ some m)

  pub on_court-Known :
      (court_id : ℕ) (exclude : Option ℕ) (store : Store) (j : ℕ)
      → on_court tournament_start default_break_minutes court_id exclude store j ≡ true
      → Known store j
  unfolding on_court
  on_court-Known court_id exclude store j h = elim (Option-cases (get_elem? store j)) [
    | inl e ↦ ground (arith, h, e)
    | inr found ↦ found
  ]

  -- A court lists exactly the objects that are on it.
  pub includes-scheduled_on_court :
      (court_id : ℕ) (exclude : Option ℕ) (store : Store) (j : ℕ)
      → includes
          (scheduled_on_court tournament_start default_break_minutes court_id exclude store)
          j
        ≡ on_court tournament_start default_break_minutes court_id exclude store j
  unfolding scheduled_on_court
  includes-scheduled_on_court court_id exclude store j =
      let on = on_court tournament_start default_break_minutes court_id exclude store in
      any-sort (starts_earlier tournament_start default_break_minutes store) (λ y. y == j)
        (filter on (places 0 store))
      ∙ any-filter (λ y. y == j) on (places 0 store)
      ∙ any_at on j (places 0 store)
      ∙ placed (Bool-cases (on j))
    where
      placed :
          (on_court tournament_start default_break_minutes court_id exclude store j ≡ true)
            ⊎ (on_court tournament_start default_break_minutes court_id exclude store j ≡ false)
          → (on_court tournament_start default_break_minutes court_id exclude store j
              && includes (places 0 store) j)
            ≡ on_court tournament_start default_break_minutes court_id exclude store j
      placed (inl e) =
          let (m, found) = on_court-Known court_id exclude store j e in
          ground (arith, e, includes-places 0 j store, get_elem?-lt store j m found)
      placed (inr e) = ground (arith, e)

  -- The instant that a court is sorted by, and a value of no meaning without an object.
  unfoldable pub key : Store → ℕ → ℤ
  unfolding start_minutes
  key store j = elim (get_elem? store j) [
    | none ↦ pos 0
    | some m ↦ start_minutes tournament_start default_break_minutes m
  ]

  unfoldable pub by_key : Store → ℕ → ℕ → Bool
  unfolding key
  by_key store i j = ltb_ℤ (key store i) (key store j)

  pub by_key_asymmetric :
      (store : Store) (i j : ℕ) → by_key store i j ≡ true → by_key store j i ≡ false
  unfolding by_key
  by_key_asymmetric store i j h = ground (arith, h)

  pub by_key_transitive :
      (store : Store) (i j k : ℕ)
      → by_key store j i ≡ false
      → by_key store k j ≡ false
      → by_key store k i ≡ false
  unfolding by_key
  by_key_transitive store i j k h l = ground (arith, h, l)

  pub starts_earlier-by_key :
      (store : Store) (i j : ℕ)
      → Known store i
      → Known store j
      → starts_earlier tournament_start default_break_minutes store i j ≡ by_key store i j
  unfolding starts_earlier by_key key
  starts_earlier-by_key store i j (m, e) (n, f) = ground (arith, e, f)

  -- A court is the objects on it, sorted by their start.
  pub scheduled_on_court-by_key :
      (court_id : ℕ) (exclude : Option ℕ) (store : Store)
      → scheduled_on_court tournament_start default_break_minutes court_id exclude store
        ≡ sort (by_key store) (
            filter
              (on_court tournament_start default_break_minutes court_id exclude store)
              (places 0 store))
  unfolding scheduled_on_court
  scheduled_on_court-by_key court_id exclude store =
      let on = on_court tournament_start default_break_minutes court_id exclude store in
      sort_congr (starts_earlier tournament_start default_break_minutes store) (by_key store)
        (Known store) (starts_earlier-by_key store) (filter on (places 0 store))
        (All-map (on_court-Known court_id exclude store) _ (filter-true on (places 0 store)))

  pub on_court-same :
      (c j : ℕ) (s t : Store)
      → get_elem? s j ≡ get_elem? t j
      → on_court tournament_start default_break_minutes c none s j
        ≡ on_court tournament_start default_break_minutes c none t j
  unfolding on_court
  on_court-same c j s t e = rw (on_court, e) refl

  -- An object is on one court only.
  pub one_court :
      (court_id c j : ℕ) (s : Store)
      → (c == court_id) ≡ false
      → on_court tournament_start default_break_minutes court_id none s j ≡ true
      → on_court tournament_start default_break_minutes c none s j ≡ false
  unfolding on_court
  one_court court_id c j s n h = elim (Option-cases (get_elem? s j)) [
    | inl e ↦ rw (on_court, e) refl
    | inr (x, e) ↦ rw (on_court, e) (ground (arith, n, subst_on x e))
  ]
    where
      subst_on :
          (x : ConflictMatch)
          → get_elem? s j ≡ some x
          → (is_num x.court_id court_id && (is_some x.start_time && true)) ≡ true
      subst_on x e = ground (arith, h, e)
