-- ===== src/Conflicts/Precedence/Clean.antt =====
-- conflicts.ts: when the precedence passes flag nothing.
use bracket.Base.{Bool, true, List, any}
use bracket.Base.Int.{ltb_ℤ}
use bracket.Base.Store.{get}
use bracket.Conflicts.{ConflictMatch, ConflictStage, end_millis, get_all_matches}
use bracket.Conflicts.Flags.{precedence, feeder_precedence, some_is}
use bracket.Conflicts.Marks.{Marks, Marks-mark, Marks-or, Marks-when, Marks-any, Marks-some_is}
use bracket.Conflicts.Precedence.{
  matches_by_id, feeder_ids, starts_before_end, playing_inputs, get_stage_item_end_times,
  get_earliest_dependent_start_times,
}
use bracket.Conflicts.Precedence.Effect.{winner_flags, cross_stage_flags, cross_stage_feeder_flags}

-- A match starts before a match whose winner or loser plays in it has ended.
abbrev pub before_feeder : List ConflictMatch → Bool
before_feeder matches =
    any
      (λ m.
        some_is
          (λ start.
            any
              (λ feeder_id.
                some_is (λ id. some_is (starts_before_end start) (get id (matches_by_id matches)))
                  feeder_id)
              (feeder_ids m))
          m.start_time)
      matches

-- A match starts before the stage item that it takes a team from has ended.
abbrev pub before_source : List ConflictStage → Bool
before_source stages =
    any
      (λ m.
        some_is
          (λ start.
            any
              (λ slot.
                some_is
                  (λ input.
                    some_is
                      (λ source_id.
                        some_is (ltb_ℤ start) (get source_id (get_stage_item_end_times stages)))
                      input.winner_from_stage_item_id)
                  slot)
              (playing_inputs m))
          m.start_time)
      (get_all_matches stages)

-- A match ends after a stage item that takes teams from its stage item has started.
abbrev pub after_dependent : List ConflictStage → Bool
after_dependent stages =
    any
      (λ stage.
        any
          (λ item.
            some_is
              (λ dependent_start.
                any
                  (λ round.
                    any (λ m. some_is (λ _. ltb_ℤ dependent_start (end_millis m)) m.start_time)
                      round.matches)
                  item.rounds)
              (get item.id (get_earliest_dependent_start_times stages)))
          stage.stage_items)
      stages

pub winner_flags-Marks :
    (matches : List ConflictMatch) → Marks (winner_flags matches) (before_feeder matches)
winner_flags-Marks matches =
    Marks-any _ _
      (λ m.
        Marks-some_is _ _
          (λ start.
            Marks-any _ _
              (λ feeder_id.
                Marks-some_is _ _
                  (λ id.
                    Marks-some_is _ (starts_before_end start)
                      (λ feeder. Marks-when (starts_before_end start feeder) _ (
                        Marks-or _ _ true true (Marks-mark m.id precedence)
                          (Marks-mark feeder.id feeder_precedence)))
                      (get id (matches_by_id matches)))
                  feeder_id)
              (feeder_ids m))
          m.start_time)
      matches

pub cross_stage_flags-Marks :
    (stages : List ConflictStage) → Marks (cross_stage_flags stages) (before_source stages)
cross_stage_flags-Marks stages =
    Marks-any _ _
      (λ m.
        Marks-some_is _ _
          (λ start.
            Marks-any _ _
              (λ slot.
                Marks-some_is _ _
                  (λ input.
                    Marks-some_is _ _
                      (λ source_id.
                        Marks-some_is _ (ltb_ℤ start)
                          (λ source_end.
                            Marks-when (ltb_ℤ start source_end) _ (Marks-mark m.id precedence))
                          (get source_id (get_stage_item_end_times stages)))
                      input.winner_from_stage_item_id)
                  slot)
              (playing_inputs m))
          m.start_time)
      (get_all_matches stages)

pub cross_stage_feeder_flags-Marks :
    (stages : List ConflictStage) → Marks (cross_stage_feeder_flags stages) (after_dependent stages)
cross_stage_feeder_flags-Marks stages =
    Marks-any _ _
      (λ stage.
        Marks-any _ _
          (λ item.
            Marks-some_is _ _
              (λ dependent_start.
                Marks-any _ _
                  (λ round.
                    Marks-any _ _
                      (λ m.
                        Marks-some_is _ _
                          (λ _.
                            Marks-when (ltb_ℤ dependent_start (end_millis m)) _
                              (Marks-mark m.id feeder_precedence))
                          m.start_time)
                      round.matches)
                  item.rounds)
              (get item.id (get_earliest_dependent_start_times stages)))
          stage.stage_items)
      stages
