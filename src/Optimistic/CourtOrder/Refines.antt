-- ===== src/Optimistic/CourtOrder/Refines.antt =====
-- optimistic.ts: inserting a match moves its reference in the orders of the courts.
use bracket.Base.{
  ℕ, ◌≡◌, ◌≢◌, refl, sym, ap, ◌∙◌, true, false, not, ◌&&◌, ◌||◌, List, none, some, arith, inl, inr,
  Bool-cases, ==_iff, ◌==◌, get_elem?, filter, min, length, All, All-map,
}
use bracket.Base.Int.{ℤ}
use bracket.Base.Order.{
  sort, Distinct, sort-All, sort-Distinct, filter-Distinct, insertion-Distinct,
}
use bracket.Base.Sorted.{sort-IsSorted, filter-true}
use bracket.Base.Unique.{includes, includes-All, sorted_unique, sort_congr}
use bracket.Conflicts.{ConflictMatch}
use bracket.Optimistic.{Store, places, on_court, scheduled_on_court, insert_match_at}
use bracket.Optimistic.Frame.{insert_match_at-unplaced}
use bracket.Optimistic.Packing.{IsPacked, insert_match_at-IsPacked, others-apart, places-Distinct}
use bracket.Optimistic.CourtOrder.{without, insert_at, move_to, orders_of, UniqueIds}
use bracket.Optimistic.CourtOrder.Members.{
  key, by_key, by_key_asymmetric, by_key_transitive, scheduled_on_court-by_key,
  includes-scheduled_on_court, one_court, on_court-same,
}
use bracket.Optimistic.CourtOrder.Strict.{TakesTime, packed-IsStrict, packed-on_court}
use bracket.Optimistic.CourtOrder.Without.{
  filter_congr, on_court-without, scheduled_on_court-without, sort-without,
}
use bracket.Optimistic.CourtOrder.Kept.{
  includes-insertion, apart, TakesTime-unplaced, places-unplaced,
}

module _ (tournament_start : ℤ) (default_break_minutes court_id : ℕ) (store : Store) (ref : ℕ)
    (m : ConflictMatch) (found : get_elem? store ref ≡ some m) (unique : UniqueIds store)
    (takes_time : TakesTime store) (position : ℕ) where
  others : List ℕ
  others = scheduled_on_court tournament_start default_break_minutes court_id (some m.id) store

  order : List ℕ
  unfolding others
  order = insert_at position ref others

  after : Store
  after =
      insert_match_at tournament_start default_break_minutes court_id ref position (some m.id) store

  after-TakesTime : TakesTime after
  unfolding after
  after-TakesTime =
      TakesTime-unplaced store after
        (insert_match_at-unplaced tournament_start default_break_minutes court_id ref position
          (some m.id) store)
        takes_time

  -- The court is packed in the new order, and other objects stay as they are.
  packed :
      IsPacked tournament_start default_break_minutes court_id none order after
      × ((j : ℕ) → All (λ r. r ≢ j) order → get_elem? after j ≡ get_elem? store j)
  unfolding after order others
  packed =
      insert_match_at-IsPacked court_id store ref m found tournament_start default_break_minutes
        position

  order-Distinct : Distinct order
  unfolding order others
  order-Distinct =
      let (known, once) =
        others-apart court_id store ref m found tournament_start default_break_minutes in
      insertion-Distinct (min position (length others)) ref others
        (All-map (λ j k. k.0) others known) once

  includes-order :
      (j : ℕ)
      → includes order j ≡ (
          (on_court tournament_start default_break_minutes court_id none store j && not (j == ref))
          || ref == j)
  unfolding order others
  includes-order j =
      includes-insertion (min position (length others)) ref others j
      ∙ ap (λ b. b || ref == j)
          (includes-scheduled_on_court tournament_start default_break_minutes court_id (some m.id)
              store j
            ∙ on_court-without tournament_start default_break_minutes court_id store ref m found
                unique j)

  untouched : (j : ℕ) → includes order j ≡ false → get_elem? after j ≡ get_elem? store j
  untouched j h = packed.1 j (apart order j h)

  -- What is on the court afterwards stands in the new order.
  on_court-order :
      (j : ℕ)
      → on_court tournament_start default_break_minutes court_id none after j ≡ true
      → includes order j ≡ true
  on_court-order j h = elim (Bool-cases (includes order j)) [
    | inl e ↦ e
    | inr e ↦
        let before : on_court tournament_start default_break_minutes court_id none store j ≡ true =
          sym (
            on_court-same tournament_start default_break_minutes court_id j after store
              (untouched j e))
          ∙ h in
        let other : ((j == ref) ≡ true) → ((ref == j) ≡ true) = λ s. ground (arith, s) in
        ground (arith, e, includes-order j, before, other)
  ]

  target : scheduled_on_court tournament_start default_break_minutes court_id none after ≡ order
  target =
      let on = on_court tournament_start default_break_minutes court_id none after in
      let before = by_key tournament_start default_break_minutes after in
      let listed =
        scheduled_on_court-by_key tournament_start default_break_minutes court_id none after in
      listed
      ∙ sorted_unique before (sort before (filter on (places 0 after))) order
          (sort-IsSorted before (by_key_asymmetric tournament_start default_break_minutes after)
            (by_key_transitive tournament_start default_break_minutes after) _)
          (sort-Distinct before _ (filter-Distinct on _ (places-Distinct 0 after)))
          (packed-IsStrict tournament_start default_break_minutes court_id order none after
            after-TakesTime packed.0)
          order-Distinct
          (sort-All before _ _ (All-map on_court-order _ (filter-true on (places 0 after))))
          (All-map
            (λ y k.
              sym (ap (λ l. includes l y) listed)
              ∙ includes-scheduled_on_court tournament_start default_break_minutes court_id none
                  after y
              ∙ k)
            order
            (packed-on_court tournament_start default_break_minutes court_id order none after
              packed.0))

  -- Another court loses the object, if it had it.
  on_court-elsewhere :
      (c j : ℕ)
      → (c == court_id) ≡ false
      → on_court tournament_start default_break_minutes c none after j
        ≡ (on_court tournament_start default_break_minutes c none store j && not (j == ref))
  on_court-elsewhere c j n = elim (Bool-cases (includes order j)) [
    | inl e ↦
        let on_new : on_court tournament_start default_break_minutes court_id none after j ≡ true =
          includes-All
            (λ r. on_court tournament_start default_break_minutes court_id none after r ≡ true)
            order j
            (packed-on_court tournament_start default_break_minutes court_id order none after
              packed.0)
            e in
        ground (
          arith,
          one_court tournament_start default_break_minutes court_id c j after n on_new,
          e,
          includes-order j,
          one_court tournament_start default_break_minutes court_id c j store n,
        )
    | inr e ↦ ground (
      arith,
      e,
      includes-order j,
      on_court-same tournament_start default_break_minutes c j after store (untouched j e),
    )
  ]

  same_key :
      (j : ℕ)
      → get_elem? after j ≡ get_elem? store j
      → key tournament_start default_break_minutes after j
        ≡ key tournament_start default_break_minutes store j
  unfolding key
  same_key j e = rw (key, e) refl

  -- What stays on another court was not touched.
  elsewhere-untouched :
      (c j : ℕ)
      → (c == court_id) ≡ false
      → (on_court tournament_start default_break_minutes c none store j && not (j == ref)) ≡ true
      → get_elem? after j ≡ get_elem? store j
  elsewhere-untouched c j n h = elim (Bool-cases (includes order j)) [
    | inl e ↦ absurd (
        ground (
          arith,
          h,
          e,
          includes-order j,
          one_court tournament_start default_break_minutes court_id c j store n,
        ))
    | inr e ↦ untouched j e
  ]

  agree :
      (i j : ℕ)
      → get_elem? after i ≡ get_elem? store i
      → get_elem? after j ≡ get_elem? store j
      → by_key tournament_start default_break_minutes after i j
        ≡ by_key tournament_start default_break_minutes store i j
  unfolding by_key
  agree i j e f = rw (same_key i e, same_key j f) refl

  elsewhere :
      (c : ℕ)
      → (c == court_id) ≡ false
      → scheduled_on_court tournament_start default_break_minutes c none after
        ≡ without ref (scheduled_on_court tournament_start default_break_minutes c none store)
  unfolding after
  elsewhere c n =
      let kept = λ (j : ℕ).
        on_court tournament_start default_break_minutes c none store j && not (j == ref) in
      let same_places : places 0 after ≡ places 0 store = places-unplaced 0 after store (
        insert_match_at-unplaced tournament_start default_break_minutes court_id ref position
          (some m.id) store) in
      scheduled_on_court-by_key tournament_start default_break_minutes c none after
      ∙ ap (sort (by_key tournament_start default_break_minutes after)) (
          filter_congr _ kept (λ j. on_court-elsewhere c j n) (places 0 after)
          ∙ ap (filter kept) same_places)
      ∙ sort_congr (by_key tournament_start default_break_minutes after)
          (by_key tournament_start default_break_minutes store)
          (λ j. get_elem? after j ≡ get_elem? store j) agree (filter kept (places 0 store))
          (All-map (λ j h. elsewhere-untouched c j n h) _ (filter-true kept (places 0 store)))
      ∙ sort-without tournament_start default_break_minutes c store ref

  -- Inserting a match at a position of a court implements the move of its reference: on every court
  -- the others keep their order, and on the new court the match takes the position among them, or
  -- the last one. No two matches of the store have one id, and each of them takes some time.
  pub insert_match_at-refines :
      (c : ℕ)
      → orders_of tournament_start default_break_minutes
          (insert_match_at tournament_start default_break_minutes court_id ref position
            (some m.id)
            store)
          c
        ≡ move_to court_id position ref (orders_of tournament_start default_break_minutes store) c
  unfolding after order others
  insert_match_at-refines c = elim (Bool-cases (c == court_id)) [
    | inl e ↦
        let same : c ≡ court_id = (==_iff c court_id).0 e in
        rw same (
          rw (self court_id) (
            target
            ∙ ap (insert_at position ref) (
                scheduled_on_court-without tournament_start default_break_minutes court_id store ref
                  m found unique)))
    | inr e ↦ rw e (elsewhere c e)
  ]
    where
      self : (k : ℕ) → (k == k) ≡ true
      self k = ground arith
