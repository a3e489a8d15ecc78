-- ===== src/Optimistic/CourtOrder/ById.antt =====
-- optimistic.ts: the map from the ids to the objects, and the action on the object of an id.
use bracket.Base.{
  ℕ, zero, suc, ◌+◌, ◌≡◌, refl, ap, ◌∙◌, true, List, [], ◌∷◌, Option, none, some, arith, ◌==◌, any,
  get_elem?, All,
}
use bracket.Base.Store.{get, put_all, get-put_all_at, has-put_all}
use bracket.Conflicts.{ConflictMatch}
use bracket.Optimistic.{Store, id_entries, matches_by_id, with_object}
use bracket.Optimistic.CourtOrder.{UniqueIds}

id_entries-All :
    (whole : Store) (i : ℕ) (ms : Store)
    → ((k : ℕ) (m : ConflictMatch) → get_elem? ms k ≡ some m → get_elem? whole (i + k) ≡ some m)
    → All
        (λ e. (n : ConflictMatch) × (get_elem? whole e.1 ≡ some n) × (n.id ≡ e.0))
        (id_entries i ms)
unfolding id_entries
id_entries-All whole i [] h = tt
id_entries-All whole i (m ∷ ms) h =
    let e : i + 0 ≡ i = omega arith in
    (
      (m, rw (← e) (h zero m refl), refl),
      id_entries-All whole (suc i) ms
          (λ k n f. let e' : suc i + k ≡ i + suc k = omega arith in rw e' (h (suc k) n f)),
    )

any-id_entries :
    (id i j : ℕ) (ms : Store) (m : ConflictMatch)
    → get_elem? ms j ≡ some m
    → m.id ≡ id
    → any (λ e. e.0 == id) (id_entries i ms) ≡ true
unfolding id_entries
any-id_entries id i j [] m h e = ground (arith, h)
any-id_entries id i zero (x ∷ xs) m h e =
    let objects : x ≡ m = ground (arith, h) in
    let same : x.id ≡ id = ap (λ y. y.id) objects ∙ e in ground (arith, same)
any-id_entries id i (suc j) (x ∷ xs) m h e = ground (arith, any-id_entries id (suc i) j xs m h e)

-- The map leads from an id to the place of an object with it.
pub get-matches_by_id :
    (store : Store) (ref : ℕ) (m : ConflictMatch)
    → UniqueIds store
    → get_elem? store ref ≡ some m
    → get m.id (matches_by_id store) ≡ some ref
unfolding matches_by_id get
get-matches_by_id store ref m unique found = at (get m.id (put_all [] (id_entries 0 store))) refl
  where
    Leads : ℕ → ℕ → Type 0
    Leads id v = (n : ConflictMatch) × (get_elem? store v ≡ some n) × (n.id ≡ id)

    from_start :
        (k : ℕ) (x : ConflictMatch) → get_elem? store k ≡ some x → get_elem? store (0 + k) ≡ some x
    from_start k x f = let e : 0 + k ≡ k = omega arith in rw e f

    at :
        (o : Option ℕ)
        → get m.id (put_all [] (id_entries 0 store)) ≡ o
        → get m.id (put_all [] (id_entries 0 store)) ≡ some ref
    at none e = ground (
      arith,
      e,
      has-put_all m.id (id_entries 0 store) [],
      any-id_entries m.id 0 ref store m found refl,
    )
    at (some v) e =
        let (n, there, same) =
          get-put_all_at Leads (id_entries 0 store) [] (id_entries-All store 0 store from_start)
            (λ k x h. absurd (cc h)) m.id v e in
        let same_place : v ≡ ref = unique v ref n m there found same in e ∙ ap some same_place

pub with_object_found :
    (by_id : List (ℕ × ℕ)) (id : ℕ) (store : Store) (body : ℕ → ConflictMatch → Store) (ref : ℕ)
    (m : ConflictMatch)
    → get id by_id ≡ some ref
    → get_elem? store ref ≡ some m
    → with_object by_id id store body ≡ body ref m
unfolding with_object
with_object_found by_id id store body ref m known found = rw (with_object, known) (rw found refl)
