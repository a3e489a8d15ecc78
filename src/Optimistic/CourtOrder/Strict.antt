-- ===== src/Optimistic/CourtOrder/Strict.antt =====
-- optimistic.ts: a packed court is in the strict order of its starts.
use bracket.Base.{
  ℕ, ◌<◌, ◌≡◌, true, List, [], ◌∷◌, Option, none, some, arith, get_elem?, All, All-map,
}
use bracket.Base.Int.{ℤ, ◌+ℤ◌, ◌<ℤ◌, sub_add_cancel, int_laws, ltb_ℤ}
use bracket.Base.Unique.{IsStrict}
use bracket.Conflicts.{ConflictMatch, millis}
use bracket.Optimistic.{Store, on_court, start_minutes}
use bracket.Optimistic.Packing.{IsPacked}
use bracket.Optimistic.CourtOrder.Members.{key, by_key}

-- No match of the store is over as soon as it starts.
abbrev pub TakesTime : Store → Type 0
TakesTime store =
    (ref : ℕ) (m : ConflictMatch) → get_elem? store ref ≡ some m → 0 < m.duration_minutes

lt_ltb : (a b : ℤ) → a <ℤ b → ltb_ℤ a b ≡ true
lt_ltb a b h = ground (arith, h)

module _ (tournament_start : ℤ) (default_break_minutes : ℕ) where
  -- An object that starts at an offset has it as its key.
  key-offset :
      (store : Store) (ref : ℕ) (m : ConflictMatch) (offset : ℤ)
      → get_elem? store ref ≡ some m
      → m.start_time ≡ some (tournament_start +ℤ offset)
      → key tournament_start default_break_minutes store ref ≡ offset
  unfolding key start_minutes
  key-offset store ref m offset e f =
      rw (key, e) (rw (start_minutes, f) (sub_add_cancel tournament_start offset))

  packed_after :
      (court_id : ℕ) (refs : List ℕ) (e b : ℤ) (store : Store)
      → b <ℤ e +ℤ millis default_break_minutes
      → IsPacked tournament_start default_break_minutes court_id (some e) refs store
      → All (λ ref. b <ℤ key tournament_start default_break_minutes store ref) refs
  packed_after court_id [] e b store h p = tt
  packed_after court_id (ref ∷ refs) e b store h (m, offset, found, on, start, keeps, rest) =
      let at : key tournament_start default_break_minutes store ref ≡ offset =
        key-offset store ref m offset found start in
      let here : b <ℤ offset = omega (arith, h, keeps) in
      let later : b <ℤ (offset +ℤ millis m.duration_minutes) +ℤ millis default_break_minutes =
        omega (int_laws, here) in
      (
        rw at here,
        packed_after court_id refs (offset +ℤ millis m.duration_minutes) b store later rest,
      )

  pub packed-IsStrict :
      (court_id : ℕ) (refs : List ℕ) (previous_end : Option ℤ) (store : Store)
      → TakesTime store
      → IsPacked tournament_start default_break_minutes court_id previous_end refs store
      → IsStrict (by_key tournament_start default_break_minutes store) refs
  unfolding by_key
  packed-IsStrict court_id [] previous_end store t p = tt
  packed-IsStrict court_id (ref ∷ refs) previous_end store t
        (m, offset, found, on, start, keeps, rest) =
      let at : key tournament_start default_break_minutes store ref ≡ offset =
        key-offset store ref m offset found start in
      let time : 0 < m.duration_minutes = t ref m found in
      let later : offset <ℤ (offset +ℤ millis m.duration_minutes) +ℤ millis default_break_minutes =
        omega (int_laws, time) in
      (
        All-map (λ r lt. rw at (lt_ltb offset _ lt)) refs
            (packed_after court_id refs (offset +ℤ millis m.duration_minutes) offset store later
              rest),
        packed-IsStrict court_id refs _ store t rest,
      )

  -- A packed court lists objects that are on it.
  pub packed-on_court :
      (court_id : ℕ) (refs : List ℕ) (previous_end : Option ℤ) (store : Store)
      → IsPacked tournament_start default_break_minutes court_id previous_end refs store
      → All
          (λ ref. on_court tournament_start default_break_minutes court_id none store ref ≡ true)
          refs
  unfolding on_court
  packed-on_court court_id [] previous_end store p = tt
  packed-on_court court_id (ref ∷ refs) previous_end store
        (m, offset, found, on, start, keeps, rest) =
      (rw (on_court, found) (ground (arith, on, start)), packed-on_court court_id refs _ store rest)
