-- ===== src/Conflicts/Referees.antt =====
-- conflicts.ts: the referee pass. A team does not referee while it plays or referees elsewhere.
pub mod Effect
pub mod Clean
pub mod Described
use bracket.Base.{
  ℕ, ◌≡◌, refl, Bool, true, ◌&&◌, ◌||◌, List, [], ◌∷◌, ◌++◌, Option, none, some, ◌==◌, any,
  any_pair, flat_map, All, All-map, All-flat_map_intro,
}
use bracket.Base.Int.{ℤ}
use bracket.Base.Grouping.{group, group_at}
use bracket.Base.Store.{get, values, push, push_all, push_all-All, push_all-append, get-All}
use bracket.Conflicts.{
  ConflictInput, ConflictMatch, ConflictStage, PlayingWindow, end_millis, start_or_zero,
  time_ranges_overlap, matches_overlap, is_definitive, get_all_matches,
}
use bracket.Conflicts.Flags.{
  FlagKey, referee_key, Flags, Result, ok, throws, ◌>>=◌, Code, mark, ◌>>>◌, when, for_some,
  for_each, for_pairs, some_is, key_eq,
}
use bracket.Conflicts.Sets.{
  Sets, Sets-mark, Sets-seq, Sets-when, Sets-for_some, Sets-for_each, Sets-for_pairs,
}
use bracket.Conflicts.Listed.{InMatches}
use bracket.Conflicts.Teams.{get_team_playing_windows, set_stage_item_input_conflict}
use bracket.Conflicts.Teams.Effect.{
  get_team_playing_windows-Belongs, set_stage_item_input_conflict-Sets, Belongs, window_flag,
}

referee_of : Option ℤ → Option ConflictInput → Option ℕ
referee_of none referee = none
referee_of (some start) none = none
referee_of (some start) (some input) = input.team_id

-- The team that referees a scheduled match.
pub referee_team : ConflictMatch → Option ℕ
unfolding referee_of
referee_team m = referee_of m.start_time m.referee

-- The windows of the team `team_id`, none if the map has no entry.
unfoldable pub windows_of :
    List (ℕ × List (ConflictMatch × PlayingWindow)) → ℕ → List (ConflictMatch × PlayingWindow)
unfolding get
windows_of windows team_id = group_at team_id windows

abbrev pub plays_meanwhile : ConflictMatch → ConflictMatch × PlayingWindow → Bool
plays_meanwhile m (playing, w) =
    time_ranges_overlap (start_or_zero m) (end_millis m) w.start_millis w.end_millis

flag_playing : ConflictMatch → ConflictMatch × PlayingWindow → Code
unfolding set_stage_item_input_conflict
flag_playing m (playing, w) = when (plays_meanwhile m (playing, w)) (
    mark referee_key m.id
    >>> when (is_definitive playing) (set_stage_item_input_conflict playing w))

-- One round of the loop over the matches, with the map of the matches that each team referees.
referee_step :
    List (ℕ × List (ConflictMatch × PlayingWindow))
    → ConflictMatch
    → Option ℕ
    → List (ℕ × List ConflictMatch)
    → Flags
    → Result (List (ℕ × List ConflictMatch) × Flags)
unfolding flag_playing windows_of
referee_step windows m none by_team flags = ok (by_team, flags)
referee_step windows m (some team_id) by_team flags = do
  flags' ← for_each (windows_of windows team_id) (flag_playing m) flags
  ok (push team_id m by_team, flags')

referee_loop :
    List (ℕ × List (ConflictMatch × PlayingWindow))
    → List ConflictMatch
    → List (ℕ × List ConflictMatch) × Flags
    → Result (List (ℕ × List ConflictMatch) × Flags)
unfolding referee_step referee_team
referee_loop windows [] (by_team, flags) = ok (by_team, flags)
referee_loop windows (m ∷ ms) (by_team, flags) =
    referee_step windows m (referee_team m) by_team flags >>= referee_loop windows ms

flag_both : ConflictMatch → ConflictMatch → Code
flag_both m1 m2 = when (matches_overlap m1 m2) (mark referee_key m1.id >>> mark referee_key m2.id)

flag_refereeing : List (ℕ × List ConflictMatch) × Flags → Result Flags
unfolding flag_both
flag_refereeing (by_team, flags) = for_each (values by_team) (λ ms. for_pairs ms flag_both) flags

unfoldable pub set_referee_overlap_conflicts : List ConflictStage → Code
unfolding get_team_playing_windows referee_loop flag_refereeing get_all_matches
set_referee_overlap_conflicts stages flags =
    referee_loop (get_team_playing_windows stages) (get_all_matches stages) ([], flags)
    >>= flag_refereeing

-- The matches with a referee, under the referee's team.
pub referee_entry : ConflictMatch → Option ℕ → List (ℕ × ConflictMatch)
referee_entry m none = []
referee_entry m (some team_id) = (team_id, m) ∷ []

pub referee_entries : List ConflictMatch → List (ℕ × ConflictMatch)
unfolding referee_entry
referee_entries = flat_map λ m. referee_entry m (referee_team m)
