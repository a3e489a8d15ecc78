-- ===== src/Conflicts/Precedence.antt =====
-- conflicts.ts: the precedence passes. A match has to wait for the matches that feed its slots, and
-- for the stage item that it takes its teams from.
pub mod Effect
pub mod Clean
pub mod Times
pub mod Sources
pub mod Noted
pub mod Dependents
pub mod Feeders
use bracket.Base.{
  ℕ, ◌≡◌, refl, Bool, true, false, ◌&&◌, ◌||◌, List, [], ◌∷◌, Option, none, some, arith, ◌==◌,
  if◌then◌else◌, is_some, any, All, All-intro, All-map, fold, map,
}
use bracket.Base.Int.{ℤ, ltb_ℤ}
use bracket.Base.Store.{get, put, put_all, get-put_all}
use bracket.Conflicts.{
  ConflictInput, ConflictMatch, ConflictRound, ConflictStageItem, ConflictStage, end_millis,
  get_all_matches,
}
use bracket.Conflicts.Flags.{
  FlagKey, precedence, feeder_precedence, Code, ok, mark, ◌>>>◌, when, for_some, for_each, some_is,
  key_eq,
}
use bracket.Conflicts.Sets.{Sets, Sets-mark, Sets-seq, Sets-when, Sets-for_some, Sets-for_each}
use bracket.Conflicts.Listed.{InMatches, InRounds, InItems, InStages}

-- `new Map(matches.map((match) => [match.id, match]))`
unfoldable pub matches_by_id : List ConflictMatch → List (ℕ × ConflictMatch)
matches_by_id matches = put_all [] (map (λ m. (m.id, m)) matches)

unfoldable pub feeder_ids : ConflictMatch → List (Option ℕ)
feeder_ids m =
    m.stage_item_input1_winner_from_match_id ∷ m.stage_item_input2_winner_from_match_id ∷ []

abbrev pub starts_before_end : ℤ → ConflictMatch → Bool
starts_before_end start feeder = is_some feeder.start_time && ltb_ℤ start (end_millis feeder)

unfoldable pub set_winner_of_precedence_conflicts : List ConflictMatch → Code
unfolding matches_by_id
set_winner_of_precedence_conflicts matches = for_each matches λ m. for_some m.start_time λ start.
    for_each (feeder_ids m) λ feeder_id. for_some feeder_id λ id.
      for_some (get id (matches_by_id matches)) λ feeder.
        when (starts_before_end start feeder)
          (mark precedence m.id >>> mark feeder_precedence feeder.id)

-- `if (latest == null || end > latest) latest = end;`
later : Option ℤ → ℤ → Option ℤ
later none end = some end
later (some l) end = if ltb_ℤ l end then some end else some l

later_end : Option ℤ → ConflictMatch → Option ℤ
unfolding later
later_end latest m = elim m.start_time [ none ↦ latest | some _ ↦ later latest (end_millis m) ]

-- The latest end of the scheduled matches.
unfoldable pub latest_end : Option ℤ → List ConflictMatch → Option ℤ
unfolding later_end
latest_end = fold later_end

-- `if (earliest == null || start < earliest) earliest = start;`
earlier : Option ℤ → ℤ → Option ℤ
earlier none start = some start
earlier (some e) start = if ltb_ℤ start e then some start else some e

earlier_start : Option ℤ → ConflictMatch → Option ℤ
unfolding earlier
earlier_start earliest m = elim m.start_time [
  | none ↦ earliest
  | some start ↦ earlier earliest start
]

put_some : ℕ → Option ℤ → List (ℕ × ℤ) → List (ℕ × ℤ)
put_some id none times = times
put_some id (some t) times = put id t times

pub get_stage_item_end_times : List ConflictStage → List (ℕ × ℤ)
unfolding latest_end put_some
get_stage_item_end_times =
    fold
      (λ times stage.
        fold
          (λ acc item.
            put_some item.id
              (fold (λ latest round. latest_end latest round.matches) none item.rounds) acc)
          times stage.stage_items)
      []

pub get_stage_item_start_times : List ConflictStage → List (ℕ × ℤ)
unfolding earlier_start put_some
get_stage_item_start_times =
    fold
      (λ times stage.
        fold
          (λ acc item.
            put_some item.id (fold (λ e round. fold earlier_start e round.matches) none item.rounds)
              acc)
          times stage.stage_items)
      []

unfoldable pub playing_inputs : ConflictMatch → List (Option ConflictInput)
playing_inputs m = m.stage_item_input1 ∷ m.stage_item_input2 ∷ []

-- One input of a match of a stage item that starts at `dependent_start`.
note_dependent : ℤ → List (ℕ × ℤ) → Option ConflictInput → List (ℕ × ℤ)
note_dependent dependent_start earliest none = earliest
note_dependent dependent_start earliest (some input) = elim input.winner_from_stage_item_id [
  | none ↦ earliest
  | some source_id ↦ elim (get source_id earliest) [
    | none ↦ put source_id dependent_start earliest
    | some existing ↦
        if ltb_ℤ dependent_start existing then put source_id dependent_start earliest else earliest
  ]
]

pub note_item : List (ℕ × ℤ) → List (ℕ × ℤ) → ConflictStageItem → List (ℕ × ℤ)
unfolding playing_inputs note_dependent
note_item start_times earliest item = elim (get item.id start_times) [
  | none ↦ earliest
  | some dependent_start ↦
      fold
        (λ acc round.
          fold (λ acc' m. fold (note_dependent dependent_start) acc' (playing_inputs m)) acc
            round.matches)
        earliest item.rounds
]

pub get_earliest_dependent_start_times : List ConflictStage → List (ℕ × ℤ)
unfolding get_stage_item_start_times note_item
get_earliest_dependent_start_times stages =
    fold
      (λ earliest stage.
        fold (note_item (get_stage_item_start_times stages)) earliest stage.stage_items)
      [] stages

unfoldable pub set_cross_stage_precedence_conflicts : List ConflictStage → Code
unfolding get_stage_item_end_times get_all_matches
set_cross_stage_precedence_conflicts stages = for_each (get_all_matches stages) λ m.
    for_some m.start_time λ start. for_each (playing_inputs m) λ slot. for_some slot λ input.
      for_some input.winner_from_stage_item_id λ source_id.
        for_some (get source_id (get_stage_item_end_times stages))
          λ source_end. when (ltb_ℤ start source_end) (mark precedence m.id)

unfoldable pub set_cross_stage_feeder_precedence_conflicts : List ConflictStage → Code
unfolding get_earliest_dependent_start_times
set_cross_stage_feeder_precedence_conflicts stages = for_each stages λ stage.
    for_each stage.stage_items λ item.
      for_some (get item.id (get_earliest_dependent_start_times stages)) λ dependent_start.
        for_each item.rounds λ round. for_each round.matches λ m.
          for_some m.start_time
            λ _. when (ltb_ℤ dependent_start (end_millis m)) (mark feeder_precedence m.id)
