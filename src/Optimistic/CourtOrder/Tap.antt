-- ===== src/Optimistic/CourtOrder/Tap.antt =====
-- selection.ts with optimistic.ts: a tap on an insertion line, from the planner to the schedule.
use bracket.Base.{
  ℕ, zero, suc, ◌+◌, ◌-◌, ◌≤◌, ◌≡◌, refl, sym, ap, ◌∙◌, true, false, ◌&&◌, ◌||◌, List, [], ◌∷◌,
  none, some, arith, inl, inr, ◌⊎◌, Bool-cases, ltb, ◌==◌, ==_iff, if◌then◌else◌, length, take,
  get_elem?,
}
use bracket.Base.Int.{ℤ}
use bracket.Base.Order.{Distinct, sort-Distinct, filter-Distinct}
use bracket.Base.Store.{get}
use bracket.Base.Unique.{includes}
use bracket.Conflicts.{ConflictMatch}
use bracket.Selection.{GridMatchRef, RescheduleBody, reschedule, place}
use bracket.Optimistic.{
  Store, matches_by_id, on_court, starts_earlier, scheduled_on_court, insert_match_at, apply_action,
  apply_to_store,
}
use bracket.Optimistic.Packing.{places-Distinct}
use bracket.Optimistic.CourtOrder.{without, insert_at, move_to, orders_of, UniqueIds}
use bracket.Optimistic.CourtOrder.Members.{includes-scheduled_on_court, one_court}
use bracket.Optimistic.CourtOrder.Strict.{TakesTime}
use bracket.Optimistic.CourtOrder.Line.{
  drop_at, insert_at-drop_at, above_absent, above_present, drop_at_own, without_absent,
}
use bracket.Optimistic.CourtOrder.Refines.{insert_match_at-refines}
use bracket.Optimistic.CourtOrder.ById.{get-matches_by_id, with_object_found}

-- What stands at a position is in the list.
found_in : (xs : List ℕ) (p x : ℕ) → get_elem? xs p ≡ some x → includes xs x ≡ true
found_in [] p x h = ground (arith, h)
found_in (y ∷ ys) zero x h =
    let same : y ≡ x = ground (arith, h) in ground (arith, (==_iff y x).1 same)
found_in (y ∷ ys) (suc p) x h = ground (arith, found_in ys p x h)

move_to_self :
    (court_id position c ref : ℕ) (orders : ℕ → List ℕ)
    → court_id ≡ c
    → move_to court_id position ref orders c ≡ insert_at position ref (without ref (orders c))
move_to_self court_id position c ref orders e =
    let self : (c == court_id) ≡ true = (==_iff c court_id).1 (sym e) in rw self refl

move_to_other :
    (court_id position d ref : ℕ) (orders : ℕ → List ℕ)
    → (d == court_id) ≡ false
    → move_to court_id position ref orders d ≡ without ref (orders d)
move_to_other court_id position d ref orders e = rw e refl

module _ (tournament_start : ℤ) (default_break_minutes : ℕ) (store : Store)
    (unique : UniqueIds store) (takes_time : TakesTime store) where
  orders-Distinct : (c : ℕ) → Distinct (orders_of tournament_start default_break_minutes store c)
  unfolding scheduled_on_court
  orders-Distinct c =
      sort-Distinct (starts_earlier tournament_start default_break_minutes store) _ (
        filter-Distinct (on_court tournament_start default_break_minutes c none store) _
          (places-Distinct 0 store))

  reschedule_applied :
      (id : ℕ) (body : RescheduleBody) (ref : ℕ) (m : ConflictMatch)
      → get id (matches_by_id store) ≡ some ref
      → get_elem? store ref ≡ some m
      → apply_to_store tournament_start default_break_minutes store (reschedule id body ∷ [])
        ≡ insert_match_at tournament_start default_break_minutes body.new_court_id ref
            body.new_position
            (some m.id)
            store
  unfolding apply_to_store apply_action
  reschedule_applied id body ref m known found =
      with_object_found (matches_by_id store) id store
        (λ r n.
          insert_match_at tournament_start default_break_minutes body.new_court_id r
            body.new_position (some n.id) store)
        ref m known found

  module _ (s : GridMatchRef) (ref : ℕ) (m : ConflictMatch) (found : get_elem? store ref ≡ some m)
      (id : s.match_id ≡ m.id)
      (at : get_elem? (orders_of tournament_start default_break_minutes store s.court_id) s.position
        ≡ some ref) where
    -- A match stands on no other court.
    not_elsewhere :
        (c : ℕ)
        → (c == s.court_id) ≡ false
        → includes (orders_of tournament_start default_break_minutes store c) ref ≡ false
    not_elsewhere c n =
        includes-scheduled_on_court tournament_start default_break_minutes c none store ref
        ∙ one_court tournament_start default_break_minutes s.court_id c ref store n (
            sym (
              includes-scheduled_on_court tournament_start default_break_minutes s.court_id none
                store ref)
            ∙ found_in _ s.position ref at)

    -- The position that a tap on a line gives.
    new_position : ℕ → ℕ → ℕ
    new_position c i = if c == s.court_id && ltb s.position i then i - 1 else i

    above_line :
        (c i : ℕ)
        → i ≤ length (orders_of tournament_start default_break_minutes store c)
        → new_position c i
          ≡ length (without ref (take i (orders_of tournament_start default_break_minutes store c)))
    unfolding new_position
    above_line c i le = elim (Bool-cases (c == s.court_id)) [
      | inl e ↦
          let same : c ≡ s.court_id = (==_iff c s.court_id).0 e in
          let own : get_elem? (orders_of tournament_start default_break_minutes store c) s.position
              ≡ some ref =
            rw same at in
          rw e (
            sym (
              above_present ref s.position i
                (orders_of tournament_start default_break_minutes store c) (orders-Distinct c) own
                le))
      | inr e ↦ rw e (
          sym (
            above_absent ref i (orders_of tournament_start default_break_minutes store c)
              (not_elsewhere c e) le))
    ]

    rescheduled :
        (c i : ℕ) (body : RescheduleBody)
        → body.new_court_id ≡ c
        → body.new_position ≡ new_position c i
        → i ≤ length (orders_of tournament_start default_break_minutes store c)
        → orders_of tournament_start default_break_minutes
            (apply_to_store tournament_start default_break_minutes store
              (reschedule s.match_id body ∷ []))
            c
          ≡ drop_at i ref (orders_of tournament_start default_break_minutes store c)
    rescheduled c i body e f le =
        let known : get s.match_id (matches_by_id store) ≡ some ref =
          ap (λ x. get x (matches_by_id store)) id ∙ get-matches_by_id store ref m unique found in
        let refined =
          insert_match_at-refines tournament_start default_break_minutes body.new_court_id store ref
            m found unique takes_time body.new_position c in
        ap (λ st. orders_of tournament_start default_break_minutes st c)
          (reschedule_applied s.match_id body ref m known found)
        ∙ refined
        ∙ move_to_self body.new_court_id body.new_position c ref
            (orders_of tournament_start default_break_minutes store) e
        ∙ insert_at-drop_at body.new_position i ref
            (orders_of tournament_start default_break_minutes store c) (f ∙ above_line c i le)

    -- The tap leaves the other courts without the match.
    rescheduled_elsewhere :
        (c d : ℕ) (body : RescheduleBody)
        → body.new_court_id ≡ c
        → (d == c) ≡ false
        → orders_of tournament_start default_break_minutes
            (apply_to_store tournament_start default_break_minutes store
              (reschedule s.match_id body ∷ []))
            d
          ≡ without ref (orders_of tournament_start default_break_minutes store d)
    rescheduled_elsewhere c d body e n =
        let known : get s.match_id (matches_by_id store) ≡ some ref =
          ap (λ x. get x (matches_by_id store)) id ∙ get-matches_by_id store ref m unique found in
        ap (λ st. orders_of tournament_start default_break_minutes st d)
          (reschedule_applied s.match_id body ref m known found)
        ∙ insert_match_at-refines tournament_start default_break_minutes body.new_court_id store ref
            m found unique takes_time body.new_position d
        ∙ move_to_other body.new_court_id body.new_position d ref
            (orders_of tournament_start default_break_minutes store) (rw e n)

    near_own_place :
        (c i : ℕ)
        → (c == s.court_id && (i == s.position || i == s.position + 1)) ≡ true
        → (c ≡ s.court_id)
          × (drop_at i ref (orders_of tournament_start default_break_minutes store c)
              ≡ orders_of tournament_start default_break_minutes store c)
    near_own_place c i e =
        let same : c ≡ s.court_id = (==_iff c s.court_id).0 (ground (arith, e)) in
        let near : (i ≡ s.position) ⊎ (i ≡ s.position + 1) = ground (arith, e) in
        let own : get_elem? (orders_of tournament_start default_break_minutes store c) s.position
            ≡ some ref =
          rw same at in
        (
          same,
          drop_at_own ref s.position i (orders_of tournament_start default_break_minutes store c)
              (orders-Distinct c) own near,
        )

    body_of : ℕ → ℕ → RescheduleBody
    unfolding new_position
    body_of c i = record {
      old_court_id = some s.court_id;
      old_position = some s.position;
      new_court_id = c;
      new_position = new_position c i;
    }

    tapped_court :
        (c i : ℕ)
        → i ≤ length (orders_of tournament_start default_break_minutes store c)
        → orders_of tournament_start default_break_minutes
            (apply_to_store tournament_start default_break_minutes store (place s c i).actions)
            c
          ≡ drop_at i ref (orders_of tournament_start default_break_minutes store c)
    unfolding place apply_to_store body_of
    tapped_court c i le =
        elim (Bool-cases (c == s.court_id && (i == s.position || i == s.position + 1))) [
          | inl e ↦ rw e (sym (near_own_place c i e).1)
          | inr e ↦ rw e (rescheduled c i (body_of c i) refl refl le)
        ]

    other_court :
        (c i d : ℕ)
        → (d == c) ≡ false
        → orders_of tournament_start default_break_minutes
            (apply_to_store tournament_start default_break_minutes store (place s c i).actions)
            d
          ≡ without ref (orders_of tournament_start default_break_minutes store d)
    unfolding place apply_to_store body_of
    other_court c i d n =
        elim (Bool-cases (c == s.court_id && (i == s.position || i == s.position + 1))) [
          | inl e ↦
              let away : (d == s.court_id) ≡ false = rw (← (near_own_place c i e).0) n in
              rw e (sym (without_absent ref _ (not_elsewhere d away)))
          | inr e ↦ rw e (rescheduled_elsewhere c d (body_of c i) refl n)
        ]

    -- What a tap on an insertion line of a court does to the schedule, for a selected match that
    -- stands at its court and position: on the tapped court the match comes to stand between those
    -- of the others that were above the line and those that were below it, and every other court
    -- keeps the order of its matches without the selected one. The line is one of the court's, no
    -- two matches have one id, and each takes some time.
    pub place-drop_at :
        (c i : ℕ)
        → i ≤ length (orders_of tournament_start default_break_minutes store c)
        → (d : ℕ)
        → orders_of tournament_start default_break_minutes
            (apply_to_store tournament_start default_break_minutes store (place s c i).actions)
            d
          ≡ (if d == c
              then drop_at i ref (orders_of tournament_start default_break_minutes store c)
              else without ref (orders_of tournament_start default_break_minutes store d))
    place-drop_at c i le d = elim (Bool-cases (d == c)) [
      | inl e ↦ let same : d ≡ c = (==_iff d c).0 e in rw e (rw same (tapped_court c i le))
      | inr e ↦ rw e (other_court c i d e)
    ]
