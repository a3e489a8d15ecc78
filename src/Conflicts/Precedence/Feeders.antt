-- ===== src/Conflicts/Precedence/Feeders.antt =====
-- conflicts.ts: the precedence pass sees the feeders that are described.
use bracket.Base.{
  ℕ, ◌≡◌, refl, sym, ap, ◌∙◌, ◌&&◌, ◌||◌, List, [], ◌∷◌, Option, none, some, arith, inl, inr,
  Option-cases, ◌==◌, is_num, any, any_congr, any_never, any_or, fold, map, All-intro,
}
use bracket.Base.Int.{ℤ}
use bracket.Base.Keyed.{UniqueBy, put_value, holds_filled}
use bracket.Base.Store.{get, put, put_all}
use bracket.Conflicts.{ConflictMatch, end_millis}
use bracket.Conflicts.Flags.{some_is}
use bracket.Conflicts.Described.{end_from, ends_after, is_fed_by, starts_before_feeder}
use bracket.Conflicts.Precedence.{matches_by_id, feeder_ids, starts_before_end}
use bracket.Conflicts.Precedence.Clean.{before_feeder}
use bracket.Conflicts.Precedence.Times.{under_some, end_millis-end_from}

-- The feeders, which are found under their ids.
module _ (matches : List ConflictMatch) (unique : UniqueBy (λ m. m.id) matches) where
  by_id-fold :
      (ms : List ConflictMatch) (by_id : List (ℕ × ConflictMatch))
      → put_all by_id (map (λ m. (m.id, m)) ms) ≡ fold (put_value (λ m. m.id) some) by_id ms
  by_id-fold [] by_id = refl
  by_id-fold (m ∷ ms) by_id = by_id-fold ms (put m.id m by_id)

  found-any :
      (start : ℤ) (id : ℕ)
      → some_is (starts_before_end start) (get id (matches_by_id matches))
        ≡ any (λ n. n.id == id && starts_before_end start n) matches
  unfolding matches_by_id get
  found-any start id =
      ap (λ by_id. some_is (starts_before_end start) (get id by_id)) (by_id-fold matches [])
      ∙ holds_filled (λ m. m.id) some (starts_before_end start) id matches [] unique
          (All-intro (λ m. refl) matches)

  ended : (start : ℤ) (n : ConflictMatch) → starts_before_end start n ≡ ends_after start n
  ended start n = elim (Option-cases n.start_time) [
    | inl e ↦ rw e refl
    | inr (s, e) ↦
        let ends : end_millis n ≡ end_from n s = end_millis-end_from n s e in rw ends (rw e refl)
  ]

  feeder-any :
      (start : ℤ) (feeder_id : Option ℕ)
      → some_is (λ id. some_is (starts_before_end start) (get id (matches_by_id matches))) feeder_id
        ≡ any (λ n. is_num feeder_id n.id && ends_after start n) matches
  feeder-any start none = sym (any_never matches)
  feeder-any start (some id) =
      found-any start id ∙ any_congr _ _ (λ n. ground (arith, ended start n)) matches

  feeders_of :
      (start : ℤ) (m : ConflictMatch)
      → any
          (λ feeder_id.
            some_is
              (λ id. some_is (starts_before_end start) (get id (matches_by_id matches)))
              feeder_id)
          (feeder_ids m)
        ≡ any (λ n. is_fed_by m n.id && ends_after start n) matches
  unfolding feeder_ids
  feeders_of start m =
      let of_slot =
        λ (feeder_id : Option ℕ) (n : ConflictMatch). is_num feeder_id n.id && ends_after start n in
      let first = m.stage_item_input1_winner_from_match_id in
      let second = m.stage_item_input2_winner_from_match_id in
      let both : any (λ n. of_slot first n || of_slot second n) matches
          ≡ any (λ n. is_fed_by m n.id && ends_after start n) matches =
        any_congr _ _ (λ n. ground arith) matches in
      ground (
        arith,
        feeder-any start first,
        feeder-any start second,
        any_or (of_slot first) (of_slot second) matches,
        both,
      )

  pub before_feeder-described : before_feeder matches ≡ starts_before_feeder matches
  before_feeder-described =
      any_congr _ _ (λ m. under_some m.start_time _ _ (λ start. feeders_of start m)) matches
