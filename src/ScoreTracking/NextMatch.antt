-- ===== src/ScoreTracking/NextMatch.antt =====
-- score_tracking.ts: the next match on a court.
use bracket.Base.{
  ℕ, suc, ◌≡◌, ◌≢◌, refl, sym, ap, ◌∙◌, Bool, true, false, not, ◌&&◌, List, [], ◌∷◌, Option, none,
  some, ◌==◌, is_num, All, All-map, filter, find, drop, Bool-cases, Option-cases, inl, inr, arith,
  ==_iff, any, All-filter,
}
use mathlib.Core.Path.{subst}
use bracket.Base.Order.{Distinct, sort-All, sort-Distinct, filter-Distinct}
use bracket.Base.Sorted.{
  IsSorted, sort-IsSorted, sort-All_inv, filter-All_inv, filter-true, find-true, drop-All,
}
use bracket.ScoreTracking.{
  MatchWithDetails, schedule_before, find_match_index, same_court, get_next_match_on_court,
  is_completed,
}

All-zip :
    (P Q : MatchWithDetails → Type 0) (ms : List MatchWithDetails)
    → All P ms
    → All Q ms
    → All (λ m. P m × Q m) ms
All-zip P Q [] h k = tt
All-zip P Q (m ∷ ms) (p, h) (q, k) = ((p, q), All-zip P Q ms h k)

asymmetric : (a b : MatchWithDetails) → schedule_before a b ≡ true → schedule_before b a ≡ false
unfolding schedule_before
asymmetric a b h = ground (arith, h)

transitive :
    (a b c : MatchWithDetails)
    → schedule_before b a ≡ false
    → schedule_before c b ≡ false
    → schedule_before c a ≡ false
unfolding schedule_before
transitive a b c h k = ground (arith, h, k)

-- The order is total: ids decide between matches that start together.
total :
    (a b : MatchWithDetails)
    → schedule_before b a ≡ false
    → b.id ≢ a.id
    → schedule_before a b ≡ true
unfolding schedule_before
total a b h n = ground (arith, h, n)

irreflexive : (a : MatchWithDetails) → schedule_before a a ≡ false
unfolding schedule_before
irreflexive a = ground arith

-- The match is still to be played after the current one.
abbrev pub is_later : MatchWithDetails → MatchWithDetails → Bool
is_later current m = schedule_before current m && not (is_completed m.state)

-- What `next` says of a match `m` that is still to be played: it does not precede the next match,
-- and there is a next match.
abbrev pub NotBefore : Option MatchWithDetails → MatchWithDetails → Type 0
NotBefore none m = ⊥
NotBefore (some next) m = schedule_before m next ≡ false

-- `match.state !== 'COMPLETED'`
abbrev to_play : MatchWithDetails → Bool
to_play m = not (is_completed m.state)

module _ (current : MatchWithDetails) where
  -- The next match precedes all that are still to be played after the current one.
  abbrev pub IsNext : Option MatchWithDetails → List MatchWithDetails → Type 0
  IsNext next = All (λ m. is_later current m ≡ true → NotBefore next m)

  -- The first match to be played in a sorted list precedes the others.
  find-IsNext :
      (ms : List MatchWithDetails) → IsSorted schedule_before ms → IsNext (find to_play ms) ms
  find-IsNext [] s = tt
  find-IsNext (m ∷ ms) (h, s) = elim (Bool-cases (is_completed m.state)) [
    | inl over ↦
        let skipped : find to_play (m ∷ ms) ≡ find to_play ms = rw over in
        subst (λ o. IsNext o (m ∷ ms)) (sym skipped)
          ((λ k. ground (arith, k, over)), find-IsNext ms s)
    | inr pending ↦
        let first : find to_play (m ∷ ms) ≡ some m = rw pending in
        subst (λ o. IsNext o (m ∷ ms)) (sym first) ((λ k. irreflexive m), All-map (λ x k _. k) ms h)
  ]

  -- Ids are unique: the current match is the only one with its id.
  abbrev pub IsOnly : List MatchWithDetails → Type 0
  IsOnly = All (λ m. m.id ≡ current.id → m ≡ current)

  found-All :
      (P : MatchWithDetails → Type 0) (ms : List MatchWithDetails) (i : ℕ)
      → IsOnly ms
      → find_match_index current.id ms ≡ some i
      → All P ms
      → P current
  unfolding find_match_index
  found-All P [] i o e h = ground (arith, e)
  found-All P (m ∷ ms) i (only, o) e (p, h) = elim (Bool-cases (m.id == current.id)) [
    | inl same ↦ subst P (only ((==_iff m.id current.id).0 same)) p
    | inr other ↦ elim (Option-cases (find_match_index current.id ms)) [
      | inl absent ↦ let never : ⊥ = ground (arith, e, other, absent) in absurd never
      | inr (j, f) ↦ found-All P ms j o f h
    ]
  ]

  after_current :
      (ms : List MatchWithDetails) (i : ℕ)
      → IsOnly ms
      → IsSorted schedule_before ms
      → find_match_index current.id ms ≡ some i
      → IsNext (find to_play (drop (suc i) ms)) ms
  unfolding find_match_index
  after_current [] i o s e = tt
  after_current (m ∷ ms) i (only, o) (h, s) e = elim (Bool-cases (m.id == current.id)) [
    | inl same ↦
        let at_once : 0 ≡ i = ground (arith, e, same) in
        let here : m ≡ current = only ((==_iff m.id current.id).0 same) in
        subst (λ j. IsNext (find to_play (drop j ms)) (m ∷ ms)) at_once
          (
            (λ k. ground (arith, k, irreflexive current, ap (schedule_before current) here)),
            find-IsNext ms s,
          )
    | inr other ↦ elim (Option-cases (find_match_index current.id ms)) [
      | inl absent ↦ let never : ⊥ = ground (arith, e, other, absent) in absurd never
      | inr (j, f) ↦
          let behind : suc j ≡ i = ground (arith, e, other, f) in
          let not_after : schedule_before current m ≡ false =
            found-All (λ y. schedule_before y m ≡ false) ms j o f h in
          subst (λ k. IsNext (find to_play (drop k ms)) (m ∷ ms)) behind
            ((λ k. ground (arith, k, not_after)), after_current ms j o s f)
    ]
  ]

  later_than_first :
      (m : MatchWithDetails) (ms : List MatchWithDetails)
      → m ≡ current
      → IsOnly ms
      → All (λ x. x ≢ m) ms
      → All (λ x. schedule_before x m ≡ false) ms
      → All (λ x. schedule_before current x ≡ true) ms
  later_than_first m [] here o n h = tt
  later_than_first m (x ∷ xs) here (only, o) (n, ns) (h, hs) =
      let after : schedule_before x current ≡ false = rw (← here) h in
      (total current x after (λ same. n (only same ∙ sym here)), later_than_first m xs here o ns hs)

  -- Behind the current match stand only matches that are later in the order.
  later_behind :
      (ms : List MatchWithDetails) (i : ℕ)
      → IsOnly ms
      → Distinct ms
      → IsSorted schedule_before ms
      → find_match_index current.id ms ≡ some i
      → All (λ m. schedule_before current m ≡ true) (drop (suc i) ms)
  unfolding find_match_index
  later_behind [] i o d s e = tt
  later_behind (m ∷ ms) i (only, o) (n, d) (h, s) e = elim (Bool-cases (m.id == current.id)) [
    | inl same ↦
        let at_once : 0 ≡ i = ground (arith, e, same) in
        let here : m ≡ current = only ((==_iff m.id current.id).0 same) in
        subst (λ j. All (λ x. schedule_before current x ≡ true) (drop j ms)) at_once
          (later_than_first m ms here o n h)
    | inr other ↦ elim (Option-cases (find_match_index current.id ms)) [
      | inl absent ↦ let never : ⊥ = ground (arith, e, other, absent) in absurd never
      | inr (j, f) ↦
          let behind : suc j ≡ i = ground (arith, e, other, f) in
          subst (λ k. All (λ x. schedule_before current x ≡ true) (drop k ms)) behind
            (later_behind ms j o d s f)
    ]
  ]

  not_found :
      (ms : List MatchWithDetails)
      → find_match_index current.id ms ≡ none
      → All (λ m. (m.id == current.id) ≡ false) ms
  unfolding find_match_index
  not_found [] e = tt
  not_found (m ∷ ms) e = elim (Bool-cases (m.id == current.id)) [
    | inl same ↦ ground (arith, e, same)
    | inr other ↦ elim (Option-cases (find_match_index current.id ms)) [
      | inl absent ↦ (other, not_found ms absent)
      | inr (j, f) ↦ ground (arith, e, other, f)
    ]
  ]

  module _ (court_id : ℕ) (on_court : current.court_id ≡ some court_id) where
    -- The current match cannot be missing from its court.
    missing :
        (ms : List MatchWithDetails)
        → IsOnly ms
        → any (λ m. m.id == current.id) ms ≡ true
        → All (λ m. is_num m.court_id court_id ≡ true → (m.id == current.id) ≡ false) ms
        → ⊥
    missing [] o l h = ground (arith, l)
    missing (m ∷ ms) (only, o) l (absent, h) = elim (Bool-cases (m.id == current.id)) [
      | inl same ↦
          let here : m ≡ current = only ((==_iff m.id current.id).0 same) in
          let there : m.court_id ≡ some court_id = ap (λ x. x.court_id) here ∙ on_court in
          let there' : is_num m.court_id court_id ≡ true = rw there (self court_id) in
          ground (arith, same, absent there')
      | inr other ↦ missing ms o (ground (arith, l, other)) h
    ]
      where
        self : (n : ℕ) → (n == n) ≡ true
        self n = (==_iff n n).1 refl

    -- For a current match of a court that is one of the matches, whose ids are unique: every match
    -- of the court that is still to be played after it does not precede the match that is returned,
    -- and then there is one; and a match that is returned is on the court, behind the current one in
    -- the order of the schedule, and still to be played.
    pub get_next_match_on_court-IsNext :
        (matches : List MatchWithDetails)
        → IsOnly matches
        → Distinct matches
        → any (λ m. m.id == current.id) matches ≡ true
        → All
            (λ m.
              is_num m.court_id court_id ≡ true
              → is_later current m ≡ true
              → NotBefore (get_next_match_on_court matches current) m)
            matches
          × ((next : MatchWithDetails)
              → get_next_match_on_court matches current ≡ some next
              → (is_num next.court_id court_id ≡ true)
                × (schedule_before current next ≡ true)
                × (is_completed next.state ≡ false))
    unfolding get_next_match_on_court same_court
    get_next_match_on_court-IsNext matches only once listed =
        elim (Option-cases (find_match_index current.id (same_court court_id matches))) [
          | inl absent ↦ absurd (
              missing matches only listed (
                filter-All_inv _ here matches
                  (sort-All_inv schedule_before _ _ (not_found _ absent))))
          | inr (i, found) ↦
              let court : List MatchWithDetails = same_court court_id matches in
              let returned : get_next_match_on_court matches current
                  ≡ find to_play (drop (suc i) court) =
                rw (get_next_match_on_court, on_court, found) in
              (
                subst
                    (λ o.
                      All (λ m. here m ≡ true → is_later current m ≡ true → NotBefore o m) matches)
                    (sym returned)
                    (filter-All_inv _ here matches (
                      sort-All_inv schedule_before _ (filter here matches) (
                        after_current court i
                          (sort-All schedule_before _ (filter here matches)
                            (All-filter _ here matches only))
                          (sort-IsSorted schedule_before asymmetric transitive
                            (filter here matches))
                          found))),
                λ next e.
                    let ((on, later), open_yet) =
                      find-true to_play (λ m. (here m ≡ true) × (schedule_before current m ≡ true))
                        (drop (suc i) court) next
                        (All-zip _ _ (drop (suc i) court)
                          (drop-All _ (suc i) court (
                            sort-All schedule_before _ (filter here matches)
                              (filter-true here matches)))
                          (later_behind court i
                            (sort-All schedule_before _ (filter here matches)
                              (All-filter _ here matches only))
                            (sort-Distinct schedule_before (filter here matches)
                              (filter-Distinct here matches once))
                            (sort-IsSorted schedule_before asymmetric transitive
                              (filter here matches))
                            found))
                        (sym returned ∙ e) in
                    (on, later, ground (arith, open_yet)),
              )
        ]
      where
        here : MatchWithDetails → Bool
        here m = is_num m.court_id court_id
