-- ===== src/Conflicts/Described.antt =====
-- conflicts.ts: the conflicts in terms of the matches, their times and their slots. The maps of ids and
-- times, the grouping by courts and the passes of the engine do not occur; the teams of the windows,
-- the slots of the occupancies and the order of starts are read as the engine reads them.
use bracket.Base.{
  ℕ, ◌*◌, Bool, not, ◌&&◌, ◌||◌, List, Option, ◌==◌, ltb, is_num, is_some, any, any_pair,
  any_adjacent, filter, flat_map,
}
use bracket.Base.Int.{ℤ, pos, ltb_ℤ, ◌+ℤ◌}
use bracket.Base.Keyed.{holds}
use bracket.Base.Order.{sort}
use bracket.Conflicts.{
  ConflictInput, ConflictMatch, ConflictStageItem, ConflictStage, is_definitive, get_all_matches,
}
use bracket.Conflicts.Rounds.{is_round_robin}
use bracket.Conflicts.Breaks.{starts_before}
use bracket.Conflicts.Teams.{window_entries}
use bracket.Conflicts.Slots.{slot_occupancies}
use bracket.Conflicts.Referees.{referee_team, referee_entries}

-- The end of a match that starts at an instant.
abbrev pub end_from : ConflictMatch → ℤ → ℤ
end_from m start = start +ℤ pos (m.duration_minutes * 60_000)

-- The match is scheduled and ends after an instant.
abbrev pub ends_after : ℤ → ConflictMatch → Bool
ends_after instant m = holds (λ start. ltb_ℤ instant (end_from m start)) m.start_time

-- Both matches are scheduled, and each starts before the other ends.
abbrev pub overlap : ConflictMatch → ConflictMatch → Bool
overlap m n =
    holds (λ start. ends_after start n) m.start_time
    && holds (λ start. ends_after start m) n.start_time

abbrev pub all_items : List ConflictStage → List ConflictStageItem
all_items = flat_map (λ stage. stage.stage_items)

abbrev pub matches_of : ConflictStageItem → List ConflictMatch
matches_of item = flat_map (λ round. round.matches) item.rounds

-- A match whose winner or loser plays in the match.
abbrev pub is_fed_by : ConflictMatch → ℕ → Bool
is_fed_by m id =
    is_num m.stage_item_input1_winner_from_match_id id
    || is_num m.stage_item_input2_winner_from_match_id id

abbrev pub is_source : Option ConflictInput → ℕ → Bool
is_source input id = holds (λ i. is_num i.winner_from_stage_item_id id) input

-- A team of the match comes from the stage item.
abbrev pub takes_from : ConflictMatch → ℕ → Bool
takes_from m id = is_source m.stage_item_input1 id || is_source m.stage_item_input2 id

-- A match starts before a match that feeds it has ended.
abbrev pub starts_before_feeder : List ConflictMatch → Bool
starts_before_feeder matches =
    any
      (λ m. holds (λ start. any (λ n. is_fed_by m n.id && ends_after start n) matches) m.start_time)
      matches

-- A match starts before a match of a stage item has ended from which it takes a team.
abbrev pub starts_before_source : List ConflictStage → Bool
starts_before_source stages =
    any
      (λ m.
        holds
          (λ start.
            any (λ item. takes_from m item.id && any (ends_after start) (matches_of item))
              (all_items stages))
          m.start_time)
      (get_all_matches stages)

-- A match of a stage item ends after a match of another item has started, which takes a team from it.
abbrev pub ends_after_dependent : List ConflictStage → Bool
ends_after_dependent stages =
    any
      (λ item.
        any
          (λ m.
            is_some m.start_time
            && any
                (λ dependent.
                  any (λ n. takes_from n item.id) (matches_of dependent)
                  && any (λ n. holds (λ start. ends_after start m) n.start_time)
                      (matches_of dependent))
                (all_items stages))
          (matches_of item))
      (all_items stages)

-- A match starts before a match of the round before its own has ended, in the order of the ids of the
-- rounds, where the rounds of the item have an order.
abbrev pub starts_before_round : List ConflictStage → Bool
starts_before_round stages =
    any
      (λ item.
        not (is_round_robin item.type)
        && any_adjacent
            (λ p c.
              any (λ m. holds (λ start. any (ends_after start) p.matches) m.start_time) c.matches)
            (sort (λ a b. ltb a.id b.id) item.rounds))
      (all_items stages)

abbrev pub is_on : ℕ → ConflictMatch → Bool
is_on court m = is_num m.court_id court && is_some m.start_time

-- The second match starts less than the break after the end of the first one.
abbrev pub too_close : ℕ → ConflictMatch → ConflictMatch → Bool
too_close default_break_minutes m n =
    holds
      (λ start.
        holds (λ next. ltb_ℤ next (end_from m start +ℤ pos (default_break_minutes * 60_000)))
          n.start_time)
      m.start_time

-- Two matches of a court that follow each other, in the order of their starts, are too close.
abbrev pub court_too_close : List ConflictMatch → ℕ → Bool
court_too_close matches default_break_minutes =
    any
      (λ m.
        is_some m.start_time
        && holds
            (λ court.
              any_adjacent (too_close default_break_minutes)
                (sort starts_before (filter (is_on court) matches)))
            m.court_id)
      matches

-- Two definitive matches that a team plays overlap. The windows say which team plays in which match.
abbrev pub team_plays_twice : List ConflictStage → Bool
team_plays_twice stages =
    any_pair
      (λ e f.
        e.0 == f.0
        && is_definitive e.1.0
        && is_definitive f.1.0
        && not (e.1.0.id == f.1.0.id)
        && overlap e.1.0 f.1.0)
      (window_entries stages)

-- Two matches overlap that have one slot. The occupancies say which slots a match has.
abbrev pub slot_in_two : List ConflictStage → Bool → Bool
slot_in_two stages referees_enabled =
    any_pair (λ e f. e.0 == f.0 && overlap e.1.match f.1.match)
      (slot_occupancies stages referees_enabled)

-- The referee's team of a match plays in a match that overlaps it.
abbrev pub referee_in_play : List ConflictStage → Bool
referee_in_play stages =
    any
      (λ m.
        holds (λ team_id. any (λ e. e.0 == team_id && overlap m e.1.0) (window_entries stages))
          (referee_team m))
      (get_all_matches stages)

-- A team referees two matches that overlap.
abbrev pub referee_in_two : List ConflictStage → Bool
referee_in_two stages =
    any_pair (λ e f. e.0 == f.0 && overlap e.1 f.1) (referee_entries (get_all_matches stages))
