-- ===== src/Conflicts/Precedence/Noted.antt =====
-- conflicts.ts: the earliest start of the items that depend on an item, as the loop notes it.
use bracket.Base.{
  ℕ, ◌⊎◌, ◌≡◌, refl, ap, ◌∙◌, Bool, true, false, ◌&&◌, ◌||◌, List, [], ◌∷◌, Option, none, some,
  arith, inl, inr, Bool-cases, Option-cases, ◌==◌, ==_iff, if◌then◌else◌, any, any_congr, fold, All,
  All-map,
}
use bracket.Base.Int.{ℤ, ltb_ℤ}
use bracket.Base.Keyed.{UniqueBy, any_own, fold-flat_map}
use bracket.Base.Store.{get, put, get-put}
use bracket.Conflicts.{ConflictInput, ConflictMatch, ConflictStageItem, ConflictStage}
use bracket.Conflicts.Flags.{some_is}
use bracket.Conflicts.Described.{all_items, matches_of, is_source, takes_from}
use bracket.Conflicts.Precedence.{
  get_stage_item_start_times, playing_inputs, note_dependent, note_item,
}
use bracket.Conflicts.Precedence.Times.{
  starts_by, item_start, item_start-any, start_times-filled, filled-any,
}

module _ (stages : List ConflictStage)
    (unique : UniqueBy (λ item. item.id) (all_items stages)) where
  starts_of :
      (instant : ℤ) (id : ℕ)
      → some_is (λ s. ltb_ℤ s instant) (get id (get_stage_item_start_times stages))
        ≡ any
            (λ item. item.id == id && any (starts_by instant) (matches_of item))
            (all_items stages)
  starts_of instant id =
      ap (λ times. some_is (λ s. ltb_ℤ s instant) (get id times)) (start_times-filled stages)
      ∙ filled-any item_start (λ s. ltb_ℤ s instant) id stages unique
      ∙ any_congr _ _ (λ item. ground (arith, item_start-any instant item)) (all_items stages)

  -- The start of an item, of which there is only one with its id.
  pub own_start :
      (instant : ℤ)
      → All
          (λ item.
            some_is (λ s. ltb_ℤ s instant) (get item.id (get_stage_item_start_times stages))
            ≡ any (starts_by instant) (matches_of item))
          (all_items stages)
  own_start instant =
      All-map (λ item own. starts_of instant item.id ∙ own) (all_items stages)
        (any_own (λ item. item.id) (λ item. any (starts_by instant) (matches_of item))
          (all_items stages) unique)

-- The earliest dependent start of an item is before an instant.
abbrev pub by_then : ℤ → ℕ → List (ℕ × ℤ) → Bool
by_then instant id earliest = some_is (λ s. ltb_ℤ s instant) (get id earliest)

module _ (instant : ℤ) (id : ℕ) where
  after_put :
      (start : ℤ) (earliest : List (ℕ × ℤ)) (k : ℕ)
      → by_then instant id (put k start earliest)
        ≡ (if k == id then ltb_ℤ start instant else by_then instant id earliest)
  after_put start earliest k =
      ap (some_is (λ s. ltb_ℤ s instant)) (get-put k id start earliest) ∙ at (Bool-cases (k == id))
    where
      at :
          ((k == id) ≡ true) ⊎ ((k == id) ≡ false)
          → some_is (λ s. ltb_ℤ s instant) (if k == id then some start else get id earliest)
            ≡ (if k == id then ltb_ℤ start instant else by_then instant id earliest)
      at (inl e) = rw e refl
      at (inr e) = rw e refl

  abbrev step : ℤ → List (ℕ × ℤ) → ℕ → Option ℤ → List (ℕ × ℤ)
  step start earliest source_id o = elim o [
    | none ↦ put source_id start earliest
    | some existing ↦ if ltb_ℤ start existing then put source_id start earliest else earliest
  ]

  at_source :
      (start : ℤ) (earliest : List (ℕ × ℤ)) (k : ℕ) (o : Option ℤ)
      → k ≡ id
      → get id earliest ≡ o
      → by_then instant id (step start earliest k o)
        ≡ (by_then instant id earliest || ltb_ℤ start instant)
  at_source start earliest k none here e =
      let same : (k == id) ≡ true = (==_iff _ _).1 here in
      let before : by_then instant id earliest ≡ false = rw e refl in
      ground (arith, after_put start earliest k, same, before)
  at_source start earliest k (some existing) here e =
      let same : (k == id) ≡ true = (==_iff _ _).1 here in
      let before : by_then instant id earliest ≡ ltb_ℤ existing instant = rw e refl in
      elim (Bool-cases (ltb_ℤ start existing)) [
        | inl l ↦ rw l (ground (arith, after_put start earliest k, same, before, l))
        | inr l ↦ rw l (ground (arith, before, l))
      ]

  elsewhere :
      (start : ℤ) (earliest : List (ℕ × ℤ)) (k : ℕ) (o : Option ℤ)
      → (k == id) ≡ false
      → by_then instant id (step start earliest k o) ≡ (by_then instant id earliest || false)
  elsewhere start earliest k none n = ground (arith, after_put start earliest k, n)
  elsewhere start earliest k (some existing) n = elim (Bool-cases (ltb_ℤ start existing)) [
    | inl l ↦ rw l (ground (arith, after_put start earliest k, n))
    | inr l ↦ rw l (ground arith)
  ]

  noted :
      (start : ℤ) (earliest : List (ℕ × ℤ)) (source_id : ℕ) (o : Option ℤ)
      → get source_id earliest ≡ o
      → by_then instant id (step start earliest source_id o)
        ≡ (by_then instant id earliest || source_id == id && ltb_ℤ start instant)
  noted start earliest source_id o e = elim (Bool-cases (source_id == id)) [
    | inl same ↦
        let here : source_id ≡ id = (==_iff _ _).0 same in
        let found : get id earliest ≡ o = rw (← here) e in
        rw same (at_source start earliest source_id o here found)
    | inr other ↦ rw other (elsewhere start earliest source_id o other)
  ]

  note_dependent-any :
      (start : ℤ) (earliest : List (ℕ × ℤ)) (input : Option ConflictInput)
      → by_then instant id (note_dependent start earliest input)
        ≡ (by_then instant id earliest || is_source input id && ltb_ℤ start instant)
  unfolding note_dependent
  note_dependent-any start earliest none = ground arith
  note_dependent-any start earliest (some input) =
      elim (Option-cases input.winner_from_stage_item_id) [
        | inl e ↦ rw (note_dependent, e) (ground arith)
        | inr (source_id, e) ↦
            rw (note_dependent, e) (noted start earliest source_id (get source_id earliest) refl)
      ]

  note_match : ℤ → List (ℕ × ℤ) → ConflictMatch → List (ℕ × ℤ)
  unfolding playing_inputs
  note_match start earliest m = fold (note_dependent start) earliest (playing_inputs m)

  note_match-any :
      (start : ℤ) (earliest : List (ℕ × ℤ)) (m : ConflictMatch)
      → by_then instant id (note_match start earliest m)
        ≡ (by_then instant id earliest || takes_from m id && ltb_ℤ start instant)
  unfolding note_match
  note_match-any start earliest m = ground (
    arith,
    note_dependent-any start (note_dependent start earliest m.stage_item_input1)
        m.stage_item_input2,
    note_dependent-any start earliest m.stage_item_input1,
  )

  note_matches-any :
      (start : ℤ) (ms : List ConflictMatch) (earliest : List (ℕ × ℤ))
      → by_then instant id (fold (note_match start) earliest ms)
        ≡ (by_then instant id earliest || any (λ m. takes_from m id) ms && ltb_ℤ start instant)
  note_matches-any start [] earliest = ground arith
  note_matches-any start (m ∷ ms) earliest = ground (
    arith,
    note_matches-any start ms (note_match start earliest m),
    note_match-any start earliest m,
  )

  module _ (start_times : List (ℕ × ℤ)) where
    -- What an item notes.
    abbrev pub notes : ConflictStageItem → Bool
    notes item =
        any (λ m. takes_from m id) (matches_of item)
        && some_is (λ s. ltb_ℤ s instant) (get item.id start_times)

    pub note_item-any :
        (earliest : List (ℕ × ℤ)) (item : ConflictStageItem)
        → by_then instant id (note_item start_times earliest item)
          ≡ (by_then instant id earliest || notes item)
    unfolding note_item note_match
    note_item-any earliest item = elim (Option-cases (get item.id start_times)) [
      | inl e ↦ rw (note_item, e) (ground arith)
      | inr (start, e) ↦
          rw (note_item, e)
            (ap (by_then instant id)
                (fold-flat_map (note_match start) (λ round. round.matches) earliest item.rounds)
              ∙ note_matches-any start (matches_of item) earliest)
    ]

    pub note_items-any :
        (items : List ConflictStageItem) (earliest : List (ℕ × ℤ))
        → by_then instant id (fold (note_item start_times) earliest items)
          ≡ (by_then instant id earliest || any notes items)
    note_items-any [] earliest = ground arith
    note_items-any (item ∷ items) earliest = ground (
      arith,
      note_items-any items (note_item start_times earliest item),
      note_item-any earliest item,
    )
