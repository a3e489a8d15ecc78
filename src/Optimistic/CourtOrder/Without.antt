-- ===== src/Optimistic/CourtOrder/Without.antt =====
-- optimistic.ts: leaving a match out by its id is leaving its reference out of the order.
use bracket.Base.{
  ℕ, ◌≡◌, refl, sym, ap, ◌∙◌, Bool, not, ◌&&◌, List, [], ◌∷◌, none, some, arith, inl, inr,
  Bool-cases, Option-cases, ==_iff, ◌==◌, get_elem?, filter,
}
use bracket.Base.Int.{ℤ}
use bracket.Base.Order.{sort}
use bracket.Base.Unique.{filter-sort}
use bracket.Conflicts.{ConflictMatch}
use bracket.Optimistic.{Store, places, on_court, scheduled_on_court}
use bracket.Optimistic.CourtOrder.{without, UniqueIds}
use bracket.Optimistic.CourtOrder.Members.{
  by_key, by_key_asymmetric, by_key_transitive, scheduled_on_court-by_key,
}

module _ {ℓ} {A : Type ℓ} where
  pub filter_congr :
      (p q : A → Bool) → ((x : A) → p x ≡ q x) → (xs : List A) → filter p xs ≡ filter q xs
  filter_congr p q h [] = refl
  filter_congr p q h (x ∷ xs) = ground (arith, h x, filter_congr p q h xs)

  pub filter-filter :
      (q p : A → Bool) (xs : List A) → filter q (filter p xs) ≡ filter (λ x. p x && q x) xs
  filter-filter q p [] = refl
  filter-filter q p (x ∷ xs) = ground (arith, filter-filter q p xs)

module _ (tournament_start : ℤ) (default_break_minutes court_id : ℕ) (store : Store) (ref : ℕ) where
  -- The order without a reference is the objects on the court but one, sorted.
  pub sort-without :
      sort (by_key tournament_start default_break_minutes store) (
        filter
          (λ j.
            on_court tournament_start default_break_minutes court_id none store j && not (j == ref))
          (places 0 store))
      ≡ without ref (scheduled_on_court tournament_start default_break_minutes court_id none store)
  sort-without =
      let on = on_court tournament_start default_break_minutes court_id none store in
      let before = by_key tournament_start default_break_minutes store in
      ap (sort before) (sym (filter-filter (λ j. not (j == ref)) on (places 0 store)))
      ∙ sym (
          filter-sort before (by_key_asymmetric tournament_start default_break_minutes store)
            (by_key_transitive tournament_start default_break_minutes store) (λ j. not (j == ref))
            (filter on (places 0 store)))
      ∙ ap (without ref) (
          sym
            (scheduled_on_court-by_key tournament_start default_break_minutes court_id none store))

module _ (tournament_start : ℤ) (default_break_minutes court_id : ℕ) (store : Store) (ref : ℕ)
    (m : ConflictMatch) (found : get_elem? store ref ≡ some m) (unique : UniqueIds store) where
  same_id : (j : ℕ) (n : ConflictMatch) → get_elem? store j ≡ some n → (m.id == n.id) ≡ (j == ref)
  same_id j n e = elim (Bool-cases (j == ref)) [
    | inl at ↦
        let objects : some n ≡ some m =
          sym e ∙ ap (get_elem? store) ((==_iff j ref).0 at) ∙ found in
        let equal : n ≡ m = ground (arith, objects) in
        let ids : n.id ≡ m.id = ap (λ x. x.id) equal in ground (arith, at, ids)
    | inr other ↦ elim (Bool-cases (m.id == n.id)) [
      | inl ids ↦
          let at : ref ≡ j = unique ref j m n found e ((==_iff m.id n.id).0 ids) in
          ground (arith, other, at)
      | inr apart ↦ apart ∙ sym other
    ]
  ]

  pub on_court-without :
      (j : ℕ)
      → on_court tournament_start default_break_minutes court_id (some m.id) store j
        ≡ (on_court tournament_start default_break_minutes court_id none store j && not (j == ref))
  unfolding on_court
  on_court-without j = elim (Option-cases (get_elem? store j)) [
    | inl e ↦ rw (on_court, e) refl
    | inr (n, e) ↦ rw (on_court, e) (ground (arith, same_id j n e))
  ]

  -- A court without a match is its order without the reference to it.
  pub scheduled_on_court-without :
      scheduled_on_court tournament_start default_break_minutes court_id (some m.id) store
      ≡ without ref (scheduled_on_court tournament_start default_break_minutes court_id none store)
  scheduled_on_court-without =
      let on = on_court tournament_start default_break_minutes court_id none store in
      scheduled_on_court-by_key tournament_start default_break_minutes court_id (some m.id) store
      ∙ ap (sort (by_key tournament_start default_break_minutes store))
          (filter_congr _ (λ j. on j && not (j == ref)) on_court-without (places 0 store))
      ∙ sort-without tournament_start default_break_minutes court_id store ref
