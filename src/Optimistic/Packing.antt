-- ===== src/Optimistic/Packing.antt =====
-- optimistic.ts: what inserting a match does to the court.
use bracket.Base.{
  ℕ, suc, ◌≤◌, ◌≡◌, ◌≢◌, refl, sym, ap, ◌∙◌, true, false, ◌&&◌, List, [], ◌∷◌, ◌++◌, Option, none,
  some, is_some, if◌then◌else◌, is_num, not, arith, inl, inr, Option-cases, length, get_elem?, take,
  drop, min, All, All-map,
}
use mathlib.Core.Path.{subst}
use bracket.Base.Int.{ℤ, pos, ◌+ℤ◌, ◌≤ℤ◌, max_ℤ}
use bracket.Base.Order.{
  Distinct, sort-All, sort-Distinct, filter-Distinct, insertion-Distinct, All-insertion,
  insertion-here,
}
use bracket.Base.Sorted.{filter-true}
use bracket.Conflicts.{ConflictMatch, millis}
use bracket.Optimistic.{
  Store, write, places, on_court, starts_earlier, scheduled_on_court, packed_start, rewrite_court,
  insert_match_at, minutes_after_start, start_minutes,
}
use bracket.Optimistic.Written.{get_elem?-write_ne, get_elem?-write_self, InStore, write-InStore}

module _ (tournament_start : ℤ) (default_break_minutes : ℕ) where
  -- The offset is not before the previous end and the default break, if there is one.
  abbrev pub KeepsBreak : Option ℤ → ℤ → Type 0
  KeepsBreak none offset = Unit
  KeepsBreak (some e) offset = e +ℤ millis default_break_minutes ≤ℤ offset

  -- The objects are on the court in this order, each one after the end of the one before it, which
  -- for the first one is `previous_end`, and the default break.
  abbrev pub IsPacked : ℕ → Option ℤ → List ℕ → Store → Type 0
  IsPacked court_id previous_end [] store = Unit
  IsPacked court_id previous_end (ref ∷ refs) store =
      (m : ConflictMatch) × (offset : ℤ) × (get_elem? store ref ≡ some m)
      × (m.court_id ≡ some court_id)
      × (m.start_time ≡ some (tournament_start +ℤ offset))
      × KeepsBreak previous_end offset
      × IsPacked court_id (some (offset +ℤ millis m.duration_minutes)) refs store

  -- A court is rewritten without touching other objects.
  get_elem?-rewrite_court :
      (court_id : ℕ) (refs : List ℕ) (previous_end : Option ℤ) (store : Store) (j : ℕ)
      → All (λ ref. ref ≢ j) refs
      → get_elem?
          (rewrite_court tournament_start default_break_minutes court_id refs previous_end store)
          j
        ≡ get_elem? store j
  unfolding rewrite_court
  get_elem?-rewrite_court court_id [] previous_end store j h = refl
  get_elem?-rewrite_court court_id (ref ∷ refs) previous_end store j (n, h) =
      elim (Option-cases (get_elem? store ref)) [
        | inl e ↦
            rw (rewrite_court, e) (get_elem?-rewrite_court court_id refs previous_end store j h)
        | inr (m, e) ↦
            rw (rewrite_court, e)
              (get_elem?-rewrite_court court_id refs _ _ j h
                ∙ get_elem?-write_ne ref j (some court_id) _ store n)
      ]

  after_break :
      (previous_end : Option ℤ) (m : ConflictMatch)
      → KeepsBreak previous_end (packed_start tournament_start default_break_minutes previous_end m)
  unfolding packed_start
  after_break none m = tt
  after_break (some e) m =
      le_max
        (if is_some m.start_time
          then start_minutes tournament_start default_break_minutes m
          else pos 0)
        (e +ℤ millis default_break_minutes)
    where
      le_max : (a b : ℤ) → b ≤ℤ max_ℤ a b
      le_max a b = ground arith

  -- One round of the loop.
  rewrite_court-cons :
      (court_id ref : ℕ) (refs : List ℕ) (previous_end : Option ℤ) (store : Store)
      (m : ConflictMatch)
      → get_elem? store ref ≡ some m
      → let offset = packed_start tournament_start default_break_minutes previous_end m in
        rewrite_court tournament_start default_break_minutes court_id
          (ref ∷ refs)
          previous_end
          store
        ≡ rewrite_court tournament_start default_break_minutes court_id refs
            (some (offset +ℤ millis m.duration_minutes))
            (write ref (some court_id) (some (tournament_start +ℤ offset)) store)
  unfolding rewrite_court minutes_after_start
  rewrite_court-cons court_id ref refs previous_end store m e = rw (rewrite_court, e)

  pub rewrite_court-IsPacked :
      (court_id : ℕ) (refs : List ℕ) (previous_end : Option ℤ) (store : Store)
      → Distinct refs
      → InStore store refs
      → IsPacked court_id previous_end refs
          (rewrite_court tournament_start default_break_minutes court_id refs previous_end store)
  unfolding rewrite_court
  rewrite_court-IsPacked court_id [] previous_end store d h = tt
  rewrite_court-IsPacked court_id (ref ∷ refs) previous_end store (n, d) ((m, e), h) =
      let offset = packed_start tournament_start default_break_minutes previous_end m in
      let start = some (tournament_start +ℤ offset) in
      let end = some (offset +ℤ millis m.duration_minutes) in
      let next = write ref (some court_id) start store in
      let rest =
        rewrite_court-IsPacked court_id refs end next d
          (write-InStore ref (some court_id) start store refs n h) in
      subst (IsPacked court_id previous_end (ref ∷ refs))
        (sym (rewrite_court-cons court_id ref refs previous_end store m e))
        (
          record m { court_id = some court_id; start_time = start },
          offset,
          get_elem?-rewrite_court court_id refs end next ref n
              ∙ get_elem?-write_self ref (some court_id) start store m e,
          refl,
          refl,
          after_break previous_end m,
          rest,
        )

places-All : (i : ℕ) (store : Store) → All (λ j. i ≤ j) (places i store)
places-All i [] = tt
places-All i (m ∷ ms) =
    (omega arith, All-map (λ j le. omega (arith, le)) (places (suc i) ms) (places-All (suc i) ms))

pub places-Distinct : (i : ℕ) (store : Store) → Distinct (places i store)
places-Distinct i [] = tt
places-Distinct i (m ∷ ms) = (
  All-map (λ j le. omega (arith, le)) (places (suc i) ms) (places-All (suc i) ms),
  places-Distinct (suc i) ms,
)

module _ (court_id : ℕ) (store : Store) (ref : ℕ) (m : ConflictMatch)
    (found : get_elem? store ref ≡ some m) where
  -- The references of a court without the match lead to other objects.
  pub on_court-other :
      (tournament_start : ℤ) (default_break_minutes j : ℕ)
      → on_court tournament_start default_break_minutes court_id (some m.id) store j ≡ true
      → (j ≢ ref) × ((n : ConflictMatch) × (get_elem? store j ≡ some n))
  unfolding on_court
  on_court-other tournament_start default_break_minutes j h = other (get_elem? store j) refl h
    where
      same_object : (n : ConflictMatch) → get_elem? store j ≡ some n → j ≡ ref → n.id ≡ m.id
      same_object n e same =
          let objects : some n ≡ some m = sym e ∙ ap (get_elem? store) same ∙ found in
          let equal : n ≡ m = ground (arith, objects) in ap (λ x. x.id) equal

      other :
          (o : Option ConflictMatch)
          → get_elem? store j ≡ o
          → (elim o [
            | none ↦ false
            | some n ↦
                is_num n.court_id court_id
                && (is_some n.start_time && not (is_num (some m.id) n.id))
          ])
            ≡ true
          → (j ≢ ref) × ((n : ConflictMatch) × (get_elem? store j ≡ some n))
      other none e h = ground (arith, h)
      other (some n) e h = (λ same. ground (arith, h, same_object n e same), (n, e))

  -- The objects of a court without the match are others, and stand once in its order.
  pub others-apart :
      (tournament_start : ℤ) (default_break_minutes : ℕ)
      → let others =
          scheduled_on_court tournament_start default_break_minutes court_id (some m.id) store in
        All (λ j. (j ≢ ref) × ((n : ConflictMatch) × (get_elem? store j ≡ some n))) others
        × Distinct others
  unfolding scheduled_on_court
  others-apart tournament_start default_break_minutes =
      let on = on_court tournament_start default_break_minutes court_id (some m.id) store in
      let before = starts_earlier tournament_start default_break_minutes store in
      (
        sort-All before _ _ (
            All-map (on_court-other tournament_start default_break_minutes) _
              (filter-true on (places 0 store))),
        sort-Distinct before _ (filter-Distinct on _ (places-Distinct 0 store)),
      )

  -- Inserting a match into a court: the objects of the court keep their order, the match takes its
  -- place among them, each one starts after the end of the one before it and the default break,
  -- and all other objects stay as they are.
  pub insert_match_at-IsPacked :
      (tournament_start : ℤ) (default_break_minutes position : ℕ)
      → let others =
          scheduled_on_court tournament_start default_break_minutes court_id (some m.id) store in
        let index = min position (length others) in
        let order = take index others ++ ref ∷ drop index others in
        let after =
          insert_match_at tournament_start default_break_minutes court_id ref position
            (some m.id)
            store in
        IsPacked tournament_start default_break_minutes court_id none order after
        × ((j : ℕ) → All (λ r. r ≢ j) order → get_elem? after j ≡ get_elem? store j)
  unfolding insert_match_at scheduled_on_court
  insert_match_at-IsPacked tournament_start default_break_minutes position =
      let others =
        scheduled_on_court tournament_start default_break_minutes court_id (some m.id) store in
      let index = min position (length others) in
      let unset = write ref (some court_id) none store in
      let (known, once) = others-apart tournament_start default_break_minutes in
      let apart : All (λ j. j ≢ ref) others = All-map (λ j k. k.0) others known in
      let distinct : Distinct (take index others ++ ref ∷ drop index others) =
        insertion-Distinct index ref others apart once in
      let there : InStore unset others =
        write-InStore ref (some court_id) none store others apart
          (All-map (λ j k. k.1) others known) in
      (
        rewrite_court-IsPacked tournament_start default_break_minutes court_id _ none unset distinct
            (All-insertion _ index ref others
              (_, get_elem?-write_self ref (some court_id) none store m found) there),
        λ j apart_j.
            get_elem?-rewrite_court tournament_start default_break_minutes court_id _ none unset j
              apart_j
            ∙ get_elem?-write_ne ref j (some court_id) none store
                (insertion-here (λ r. r ≢ j) index ref others apart_j),
      )
