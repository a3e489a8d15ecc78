-- ===== src/Conflicts/Precedence/Effect.antt =====
-- conflicts.ts: the flags that the three precedence passes set.
use bracket.Base.{
  ℕ, ◌≡◌, Bool, true, ◌&&◌, ◌||◌, List, [], ◌∷◌, some, ◌==◌, any, All, All-intro, All-map, map,
}
use bracket.Base.Int.{ltb_ℤ}
use bracket.Base.Store.{get, get-put_all}
use bracket.Conflicts.{ConflictMatch, ConflictStage, end_millis, get_all_matches}
use bracket.Conflicts.Flags.{FlagKey, precedence, feeder_precedence, some_is, key_eq}
use bracket.Conflicts.Sets.{Sets, Sets-mark, Sets-seq, Sets-when, Sets-for_some, Sets-for_each}
use bracket.Conflicts.Listed.{InMatches, InStages}
use bracket.Conflicts.Precedence.{
  matches_by_id, feeder_ids, starts_before_end, set_winner_of_precedence_conflicts, playing_inputs,
  get_stage_item_end_times, get_earliest_dependent_start_times,
  set_cross_stage_precedence_conflicts, set_cross_stage_feeder_precedence_conflicts,
}

-- Match m starts before the match with the id of one of its feeders has ended.
abbrev pub winner_flags : List ConflictMatch → ℕ → FlagKey → Bool
winner_flags matches j k =
    any
      (λ m.
        some_is
          (λ start.
            any
              (λ feeder_id.
                some_is
                  (λ id.
                    some_is
                      (λ feeder.
                        starts_before_end start feeder
                        && ((m.id == j && key_eq precedence k)
                            || (feeder.id == j && key_eq feeder_precedence k)))
                      (get id (matches_by_id matches)))
                  feeder_id)
              (feeder_ids m))
          m.start_time)
      matches

-- Match j starts before the stage item that one of its slots waits for has ended.
abbrev pub cross_stage_flags : List ConflictStage → ℕ → FlagKey → Bool
cross_stage_flags stages j k =
    any
      (λ m.
        some_is
          (λ start.
            any
              (λ slot.
                some_is
                  (λ input.
                    some_is
                      (λ source_id.
                        some_is
                          (λ source_end.
                            ltb_ℤ start source_end && (m.id == j && key_eq precedence k))
                          (get source_id (get_stage_item_end_times stages)))
                      input.winner_from_stage_item_id)
                  slot)
              (playing_inputs m))
          m.start_time)
      (get_all_matches stages)

-- Match j ends after a stage item that waits for its stage item has started.
abbrev pub cross_stage_feeder_flags : List ConflictStage → ℕ → FlagKey → Bool
cross_stage_feeder_flags stages j k =
    any
      (λ stage.
        any
          (λ item.
            some_is
              (λ dependent_start.
                any
                  (λ round.
                    any
                      (λ m.
                        some_is
                          (λ _.
                            ltb_ℤ dependent_start (end_millis m)
                            && (m.id == j && key_eq feeder_precedence k))
                          m.start_time)
                      round.matches)
                  item.rounds)
              (get item.id (get_earliest_dependent_start_times stages)))
          stage.stage_items)
      stages

module _ (K : ℕ → Bool) where
  entries_listed :
      (matches : List ConflictMatch)
      → InMatches K matches
      → All (λ (e : ℕ × ConflictMatch). K e.1.id ≡ true) (map (λ m. (m.id, m)) matches)
  entries_listed [] h = tt
  entries_listed (m ∷ ms) (p, h) = (p, entries_listed ms h)

  found_listed :
      (matches : List ConflictMatch) (id : ℕ) (m : ConflictMatch)
      → InMatches K matches
      → get id (matches_by_id matches) ≡ some m
      → K m.id ≡ true
  unfolding matches_by_id get
  found_listed matches id m h e =
      get-put_all (λ (n : ConflictMatch). K n.id ≡ true) (map (λ n. (n.id, n)) matches) []
        (entries_listed matches h) (λ k v f. absurd (cc)) id m e

  pub set_winner_of_precedence_conflicts-Sets :
      (matches : List ConflictMatch)
      → InMatches K matches
      → Sets K (winner_flags matches) (set_winner_of_precedence_conflicts matches)
  unfolding set_winner_of_precedence_conflicts
  set_winner_of_precedence_conflicts-Sets matches h = Sets-for_each _ _ matches (
      All-map
        (λ m listed. Sets-for_some _ _ m.start_time λ start _. Sets-for_each _ _ (feeder_ids m) (
          All-intro
            (λ feeder_id. Sets-for_some _ _ feeder_id λ id _.
              Sets-for_some _ _ (get id (matches_by_id matches)) λ feeder found.
                Sets-when (starts_before_end start feeder) _ _ λ _.
                  Sets-seq _ _ _ _ (Sets-mark precedence m.id listed) (
                    Sets-mark feeder_precedence feeder.id (found_listed matches id feeder h found)))
            (feeder_ids m)))
        matches h)

  pub set_cross_stage_precedence_conflicts-Sets :
      (stages : List ConflictStage)
      → InMatches K (get_all_matches stages)
      → Sets K (cross_stage_flags stages) (set_cross_stage_precedence_conflicts stages)
  unfolding set_cross_stage_precedence_conflicts
  set_cross_stage_precedence_conflicts-Sets stages h = Sets-for_each _ _ (get_all_matches stages) (
      All-map
        (λ m listed. Sets-for_some _ _ m.start_time λ start _.
          Sets-for_each _ _ (playing_inputs m) (
            All-intro
              (λ slot. Sets-for_some _ _ slot λ input _.
                Sets-for_some _ _ input.winner_from_stage_item_id λ source_id _.
                  Sets-for_some _ _ (get source_id (get_stage_item_end_times stages))
                    λ source_end _.
                      Sets-when (ltb_ℤ start source_end) _ _ λ _. Sets-mark precedence m.id listed)
              (playing_inputs m)))
        (get_all_matches stages) h)

  pub set_cross_stage_feeder_precedence_conflicts-Sets :
      (stages : List ConflictStage)
      → InStages K stages
      → Sets K
          (cross_stage_feeder_flags stages)
          (set_cross_stage_feeder_precedence_conflicts stages)
  unfolding set_cross_stage_feeder_precedence_conflicts
  set_cross_stage_feeder_precedence_conflicts-Sets stages h = Sets-for_each _ _ stages (
      All-map
        (λ s t. Sets-for_each _ _ s.stage_items (
          All-map
            (λ i u.
              Sets-for_some _ _ (get i.id (get_earliest_dependent_start_times stages)) λ start _.
                Sets-for_each _ _ i.rounds (
                  All-map
                    (λ r v. Sets-for_each _ _ r.matches (
                      All-map
                        (λ m listed. Sets-for_some _ _ m.start_time λ _ _.
                          Sets-when (ltb_ℤ start (end_millis m)) _ _
                            λ _. Sets-mark feeder_precedence m.id listed)
                        r.matches v))
                    i.rounds u))
            s.stage_items t))
        stages h)
