-- ===== src/Conflicts/Precedence/Dependents.antt =====
-- conflicts.ts: the feeder pass sees the dependents that are described.
use bracket.Base.{
  ℕ, ◌≡◌, refl, sym, ap, ◌∙◌, Bool, false, ◌&&◌, List, [], Option, none, some, arith, inl, inr,
  Option-cases, is_some, any, any-flat_map, any_congr, any_never, All-map,
}
use bracket.Base.Int.{ℤ, ltb_ℤ}
use bracket.Base.Keyed.{holds, UniqueBy, any_congr_All, fold-flat_map}
use bracket.Base.Store.{get}
use bracket.Conflicts.{ConflictMatch, ConflictStageItem, ConflictStage, end_millis}
use bracket.Conflicts.Flags.{some_is}
use bracket.Conflicts.Described.{
  end_from, ends_after, all_items, matches_of, takes_from, ends_after_dependent,
}
use bracket.Conflicts.Precedence.{
  get_stage_item_start_times, note_item, get_earliest_dependent_start_times,
}
use bracket.Conflicts.Precedence.Clean.{after_dependent}
use bracket.Conflicts.Precedence.Times.{under_some, end_millis-end_from, starts_by}
use bracket.Conflicts.Precedence.Noted.{by_then, notes, note_items-any, own_start}

-- A test of a time that may be missing, moved into a loop.
swap_any :
    (q : ConflictMatch → Bool) (ms : List ConflictMatch) (o : Option ℤ)
    → some_is (λ d. any (λ m. q m && ltb_ℤ d (end_millis m)) ms) o
      ≡ any (λ m. q m && some_is (λ d. ltb_ℤ d (end_millis m)) o) ms
swap_any q ms none = sym (any_congr _ (λ m. false) (λ m. ground arith) ms ∙ any_never ms)
swap_any q ms (some d) = refl

scheduled_later :
    (d : ℤ) (m : ConflictMatch)
    → some_is (λ _. ltb_ℤ d (end_millis m)) m.start_time
      ≡ (is_some m.start_time && ltb_ℤ d (end_millis m))
scheduled_later d m = elim (Option-cases m.start_time) [
  | inl e ↦ rw e refl
  | inr (start, e) ↦ rw e refl
]

module _ (stages : List ConflictStage)
    (unique : UniqueBy (λ item. item.id) (all_items stages)) where
  abbrev starts_earlier : ConflictMatch → ConflictStageItem → Bool
  starts_earlier m dependent =
      any (λ n. holds (λ start. ends_after start m) n.start_time) (matches_of dependent)

  dependent_at :
      (m : ConflictMatch) (id : ℕ)
      → (is_some m.start_time
          && by_then (end_millis m) id (get_earliest_dependent_start_times stages))
        ≡ (is_some m.start_time
            && any
                (λ dependent.
                  any (λ n. takes_from n id) (matches_of dependent) && starts_earlier m dependent)
                (all_items stages))
  unfolding get_earliest_dependent_start_times get
  dependent_at m id = elim (Option-cases m.start_time) [
    | inl e ↦ rw e refl
    | inr (start, e) ↦
        let ends : end_millis m ≡ end_from m start = end_millis-end_from m start e in
        let times = get_stage_item_start_times stages in
        let noted : by_then (end_millis m) id (get_earliest_dependent_start_times stages)
            ≡ any (notes (end_millis m) id times) (all_items stages) =
          ap (by_then (end_millis m) id)
            (fold-flat_map (note_item times) (λ stage. stage.stage_items) [] stages)
          ∙ note_items-any (end_millis m) id times (all_items stages) [] in
        let same : any (notes (end_millis m) id times) (all_items stages)
            ≡ any
                (λ dependent.
                  any (λ n. takes_from n id) (matches_of dependent) && starts_earlier m dependent)
                (all_items stages) =
          any_congr_All _ _ (all_items stages) (
            All-map
              (λ item own.
                let earlier : any (starts_by (end_millis m)) (matches_of item)
                    ≡ starts_earlier m item =
                  any_congr _ _ (λ n. rw ends (rw e refl)) (matches_of item) in
                ground (arith, own, earlier))
              (all_items stages) (own_start stages unique (end_millis m))) in
        ap (λ b. is_some m.start_time && b) (noted ∙ same)
  ]

  dependents_of :
      (item : ConflictStageItem)
      → some_is
          (λ dependent_start.
            any
              (λ round.
                any
                  (λ m. some_is (λ _. ltb_ℤ dependent_start (end_millis m)) m.start_time)
                  round.matches)
              item.rounds)
          (get item.id (get_earliest_dependent_start_times stages))
        ≡ any
            (λ m.
              is_some m.start_time
              && any
                  (λ dependent.
                    any (λ n. takes_from n item.id) (matches_of dependent)
                    && starts_earlier m dependent)
                  (all_items stages))
            (matches_of item)
  dependents_of item =
      let earliest = get item.id (get_earliest_dependent_start_times stages) in
      under_some earliest _ _ (λ d.
        sym (
          any-flat_map (λ m. some_is (λ _. ltb_ℤ d (end_millis m)) m.start_time)
            (λ round. round.matches) item.rounds)
        ∙ any_congr _ _ (scheduled_later d) (matches_of item))
      ∙ swap_any (λ m. is_some m.start_time) (matches_of item) earliest
      ∙ any_congr _ _ (λ m. dependent_at m item.id) (matches_of item)

  pub after_dependent-described : after_dependent stages ≡ ends_after_dependent stages
  after_dependent-described =
      sym (any-flat_map _ (λ stage. stage.stage_items) stages)
      ∙ any_congr _ _ dependents_of (all_items stages)
