-- ===== src/Conflicts/Compute.antt =====
-- conflicts.ts: `computeConflictFlags`, and the flags that it returns.
pub mod Exact
pub mod Clean
use bracket.Base.{
  ℕ, ◌≡◌, refl, sym, ap, Bool, true, false, ◌&&◌, ◌||◌, List, [], ◌∷◌, Option, none, some, arith,
  ◌==◌, if◌then◌else◌, is_some, any, All, map, Option-cases, inl, inr, ◌∙◌, Bool-cases,
}
use bracket.Base.Store.{get, put, put_all, get-put}
use bracket.Conflicts.{ConflictMatch, ConflictStage, get_all_matches}
use bracket.Conflicts.Flags.{
  ConflictFlags, FlagKey, empty_flags, read, Flags, Result, ok, throws, ◌>>=◌, Code, ◌>>>◌, when,
  some_is, flag_of, has,
}
use bracket.Conflicts.Sets.{Sets, Sets-seq, Sets-when, Covers, Adds}
use bracket.Conflicts.Listed.{is_listed, InMatches, InStages, listed-InMatches, InMatches-InStages}
use bracket.Conflicts.Precedence.{
  set_winner_of_precedence_conflicts, set_cross_stage_precedence_conflicts,
  set_cross_stage_feeder_precedence_conflicts,
}
use bracket.Conflicts.Rounds.{set_round_order_conflicts}
use bracket.Conflicts.Breaks.{set_short_break_conflicts}
use bracket.Conflicts.Slots.{set_slot_overlap_conflicts}
use bracket.Conflicts.Teams.{set_team_overlap_conflicts}
use bracket.Conflicts.Referees.{set_referee_overlap_conflicts}

-- `matchesOfInterest`; the ids of a `ReadonlySet` in its order.
pub data Interest : Type 0 where
  everything : Interest
  only : List ℕ → Interest

-- `new Map(matches.map((match) => [match.id, emptyFlags()]))`
pub initial_flags : List ConflictMatch → Flags
unfolding put
initial_flags matches = put_all [] (map (λ m. (m.id, empty_flags)) matches)

-- The passes, in their order.
pub set_all_conflicts : List ConflictStage → ℕ → Bool → Code
unfolding set_team_overlap_conflicts set_referee_overlap_conflicts set_slot_overlap_conflicts
    set_winner_of_precedence_conflicts set_cross_stage_precedence_conflicts
    set_cross_stage_feeder_precedence_conflicts set_short_break_conflicts set_round_order_conflicts
set_all_conflicts stages default_break_minutes referees_enabled =
    set_team_overlap_conflicts stages
    >>> when referees_enabled (set_referee_overlap_conflicts stages)
    >>> set_slot_overlap_conflicts stages referees_enabled
    >>> set_winner_of_precedence_conflicts (get_all_matches stages)
    >>> set_cross_stage_precedence_conflicts stages
    >>> set_cross_stage_feeder_precedence_conflicts stages
    >>> set_short_break_conflicts (get_all_matches stages) default_break_minutes
    >>> set_round_order_conflicts stages

-- The entries of the matches of interest.
narrow : List ℕ → Flags → Flags → Flags
narrow [] flags filtered = filtered
narrow (id ∷ ids) flags filtered = elim (get id flags) [
  | none ↦ narrow ids flags filtered
  | some f ↦ narrow ids flags (put id f filtered)
]

restrict : Interest → Flags → Flags
unfolding narrow
restrict everything flags = flags
restrict (only ids) flags = narrow ids flags []

unfoldable pub compute_conflict_flags : List ConflictStage → ℕ → Interest → Bool → Result Flags
unfolding initial_flags set_all_conflicts restrict get_all_matches
compute_conflict_flags stages default_break_minutes matches_of_interest referees_enabled = do
  flags ←
      set_all_conflicts stages default_break_minutes referees_enabled
        (initial_flags (get_all_matches stages))
  ok (restrict matches_of_interest flags)
