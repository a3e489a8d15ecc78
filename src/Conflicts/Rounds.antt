-- ===== src/Conflicts/Rounds.antt =====
-- conflicts.ts: the round order pass. A round starts after the round before it has ended.
pub mod Described
use bracket.Base.{
  ℕ, Bool, true, false, not, ◌&&◌, List, none, ltb, ◌==◌, any, any_adjacent, All-map,
}
use bracket.Base.Int.{ltb_ℤ}
use bracket.Base.Order.{sort, sort-All}
use bracket.Conflicts.{ConflictRound, ConflictStageItem, ConflictStage, StageItemType, round_robin}
use bracket.Conflicts.Flags.{
  FlagKey, round_order, Code, mark, when, for_some, for_each, for_adjacent, some_is, key_eq,
}
use bracket.Conflicts.Precedence.{latest_end}
use bracket.Conflicts.Marks.{
  Marks, Marks-mark, Marks-when, Marks-and, Marks-any, Marks-any_adjacent, Marks-some_is,
}
use bracket.Conflicts.Sets.{
  Sets, Sets-mark, Sets-when, Sets-for_some, Sets-for_each, Sets-for_adjacent,
}
use bracket.Conflicts.Listed.{InStages, InMatches}

pub is_round_robin : StageItemType → Bool
is_round_robin round_robin = true
is_round_robin _ = false

-- `[...stageItem.rounds].sort((a, b) => a.id - b.id)`
pub sorted_rounds : ConflictStageItem → List ConflictRound
unfolding sort
sorted_rounds item = sort (λ a b. ltb a.id b.id) item.rounds

round_pair : ConflictRound → ConflictRound → Code
unfolding latest_end
round_pair prev_round curr_round = for_some (latest_end none prev_round.matches) λ prev_round_end.
    for_each curr_round.matches
      λ m. for_some m.start_time λ start. when (ltb_ℤ start prev_round_end) (mark round_order m.id)

unfoldable pub set_round_order_conflicts : List ConflictStage → Code
unfolding round_pair sorted_rounds is_round_robin
set_round_order_conflicts stages = for_each stages λ stage.
    for_each stage.stage_items
      λ item. when (not (is_round_robin item.type)) (for_adjacent (sorted_rounds item) round_pair)

-- A match of the later round that starts before the earlier round has ended.
abbrev pub round_pair_flags : ConflictRound → ConflictRound → ℕ → FlagKey → Bool
round_pair_flags prev_round curr_round j k =
    some_is
      (λ end.
        any
          (λ m.
            some_is (λ start. ltb_ℤ start end && (m.id == j && key_eq round_order k)) m.start_time)
          curr_round.matches)
      (latest_end none prev_round.matches)

abbrev pub round_order_flags : List ConflictStage → ℕ → FlagKey → Bool
round_order_flags stages j k =
    any
      (λ stage.
        any
          (λ item.
            not (is_round_robin item.type)
            && any_adjacent (λ p c. round_pair_flags p c j k) (sorted_rounds item))
          stage.stage_items)
      stages

-- Some match starts before the round before its own has ended.
abbrev pub round_too_early : List ConflictStage → Bool
round_too_early stages =
    any
      (λ stage.
        any
          (λ item.
            not (is_round_robin item.type) && any_adjacent pair_too_early (sorted_rounds item))
          stage.stage_items)
      stages
  where
    pair_too_early : ConflictRound → ConflictRound → Bool
    pair_too_early p c =
        some_is (λ end. any (λ m. some_is (λ start. ltb_ℤ start end) m.start_time) c.matches)
          (latest_end none p.matches)

pub round_order_flags-Marks :
    (stages : List ConflictStage) → Marks (round_order_flags stages) (round_too_early stages)
round_order_flags-Marks stages =
    Marks-any _ _
      (λ stage.
        Marks-any _ _
          (λ item. Marks-and (not (is_round_robin item.type)) _ _ (
            Marks-any_adjacent _ _
              (λ p c.
                Marks-some_is _ _
                  (λ end.
                    Marks-any _ _
                      (λ m.
                        Marks-some_is _ _
                          (λ start. Marks-when (ltb_ℤ start end) _ (Marks-mark m.id round_order))
                          m.start_time)
                      c.matches)
                  (latest_end none p.matches))
              (sorted_rounds item)))
          stage.stage_items)
      stages

module _ (K : ℕ → Bool) where
  round_pair-Sets :
      (p c : ConflictRound)
      → InMatches K p.matches
      → InMatches K c.matches
      → Sets K (round_pair_flags p c) (round_pair p c)
  unfolding round_pair
  round_pair-Sets p c h k = Sets-for_some _ _ (latest_end none p.matches) λ end _.
      Sets-for_each _ _ c.matches (
        All-map
          (λ m listed.
            Sets-for_some _ _ m.start_time
              λ start _. Sets-when (ltb_ℤ start end) _ _ λ _. Sets-mark round_order m.id listed)
          c.matches k)

  pub set_round_order_conflicts-Sets :
      (stages : List ConflictStage)
      → InStages K stages
      → Sets K (round_order_flags stages) (set_round_order_conflicts stages)
  unfolding set_round_order_conflicts
  set_round_order_conflicts-Sets stages h = Sets-for_each _ _ stages (
      All-map
        (λ s t. Sets-for_each _ _ s.stage_items (
          All-map
            (λ i u. Sets-when (not (is_round_robin i.type)) _ _ λ _.
              Sets-for_adjacent _ _ round_pair-Sets (sorted_rounds i) (sort-All _ _ i.rounds u))
            s.stage_items t))
        stages h)
