-- ===== src/Conflicts/Precedence/Sources.antt =====
-- conflicts.ts: the precedence pass sees the sources that are described.
use bracket.Base.{
  ℕ, ◌≡◌, sym, ap, ◌∙◌, ◌&&◌, ◌||◌, List, Option, none, some, arith, inl, inr, Option-cases, is_num,
  any, any_congr, any_never, any_or,
}
use bracket.Base.Int.{ℤ, ltb_ℤ}
use bracket.Base.Keyed.{UniqueBy}
use bracket.Base.Store.{get}
use bracket.Conflicts.{
  ConflictInput, ConflictMatch, ConflictStageItem, ConflictStage, get_all_matches,
}
use bracket.Conflicts.Flags.{some_is}
use bracket.Conflicts.Described.{
  ends_after, all_items, matches_of, is_source, takes_from, starts_before_source,
}
use bracket.Conflicts.Precedence.{get_stage_item_end_times, playing_inputs}
use bracket.Conflicts.Precedence.Clean.{before_source}
use bracket.Conflicts.Precedence.Times.{
  under_some, item_end, item_end-any, end_times-filled, filled-any,
}

module _ (stages : List ConflictStage)
    (unique : UniqueBy (λ item. item.id) (all_items stages)) where
  ends_of :
      (start : ℤ) (id : ℕ)
      → some_is (ltb_ℤ start) (get id (get_stage_item_end_times stages))
        ≡ any
            (λ item. is_num (some id) item.id && any (ends_after start) (matches_of item))
            (all_items stages)
  ends_of start id =
      ap (λ times. some_is (ltb_ℤ start) (get id times)) (end_times-filled stages)
      ∙ filled-any item_end (ltb_ℤ start) id stages unique
      ∙ any_congr _ _ (λ item. ground (arith, item_end-any start item)) (all_items stages)

  source-any :
      (start : ℤ) (slot : Option ConflictInput)
      → some_is
          (λ input.
            some_is
              (λ id. some_is (ltb_ℤ start) (get id (get_stage_item_end_times stages)))
              input.winner_from_stage_item_id)
          slot
        ≡ any
            (λ item. is_source slot item.id && any (ends_after start) (matches_of item))
            (all_items stages)
  source-any start none = sym (any_never (all_items stages))
  source-any start (some input) = elim (Option-cases input.winner_from_stage_item_id) [
    | inl e ↦ rw e (sym (any_never (all_items stages)))
    | inr (id, e) ↦ rw e (ends_of start id)
  ]

  sources_of :
      (start : ℤ) (m : ConflictMatch)
      → any
          (λ slot.
            some_is
              (λ input.
                some_is
                  (λ id. some_is (ltb_ℤ start) (get id (get_stage_item_end_times stages)))
                  input.winner_from_stage_item_id)
              slot)
          (playing_inputs m)
        ≡ any
            (λ item. takes_from m item.id && any (ends_after start) (matches_of item))
            (all_items stages)
  unfolding playing_inputs
  sources_of start m =
      let of_slot = λ (slot : Option ConflictInput) (item : ConflictStageItem).
        is_source slot item.id && any (ends_after start) (matches_of item) in
      let both : any (λ item. of_slot m.stage_item_input1 item || of_slot m.stage_item_input2 item)
            (all_items stages)
          ≡ any (λ item. takes_from m item.id && any (ends_after start) (matches_of item))
              (all_items stages) =
        any_congr _ _ (λ item. ground arith) (all_items stages) in
      ground (
        arith,
        source-any start m.stage_item_input1,
        source-any start m.stage_item_input2,
        any_or (of_slot m.stage_item_input1) (of_slot m.stage_item_input2) (all_items stages),
        both,
      )

  pub before_source-described : before_source stages ≡ starts_before_source stages
  before_source-described =
      any_congr _ _ (λ m. under_some m.start_time _ _ (λ start. sources_of start m))
        (get_all_matches stages)
