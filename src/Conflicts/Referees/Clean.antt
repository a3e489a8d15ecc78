-- ===== src/Conflicts/Referees/Clean.antt =====
-- conflicts.ts: when the referee pass flags nothing.
use bracket.Base.{refl, Bool, true, ◌&&◌, ◌||◌, List, [], any, any_pair, ◌==◌}
use bracket.Base.Grouping.{any_pair-grouped, any-group_at, group_at}
use bracket.Base.Store.{get, values, push_all}
use bracket.Conflicts.{
  ConflictMatch, ConflictStage, PlayingWindow, matches_overlap, is_definitive, get_all_matches,
}
use bracket.Conflicts.Flags.{referee_key, some_is, key_eq}
use bracket.Conflicts.Marks.{
  Marks, Marks-mark, Marks-or, Marks-when, Marks-any, Marks-any_pair, Marks-some_is, Marks-congr,
}
use bracket.Conflicts.Teams.{window_entries, get_team_playing_windows}
use bracket.Conflicts.Teams.Effect.{window_flag, window_flag-Marks}
use bracket.Conflicts.Referees.{referee_team, windows_of, plays_meanwhile, referee_entries}
use bracket.Conflicts.Referees.Effect.{playing_flags, both_flags, referee_flags}

-- The referee's team of a match plays in a match that overlaps it.
abbrev pub referee_plays : List ConflictStage → Bool
referee_plays stages =
    any
      (λ m.
        some_is
          (λ team_id. any (λ e. e.0 == team_id && plays_meanwhile m e.1) (window_entries stages))
          (referee_team m))
      (get_all_matches stages)

-- A team referees two matches that overlap in time.
abbrev pub double_booked_referee : List ConflictStage → Bool
double_booked_referee stages =
    any_pair (λ e f. e.0 == f.0 && matches_overlap e.1 f.1)
      (referee_entries (get_all_matches stages))

playing_flags-Marks :
    (stages : List ConflictStage) (m : ConflictMatch)
    → Marks (playing_flags stages m) (
        some_is
          (λ team_id. any (λ e. e.0 == team_id && plays_meanwhile m e.1) (window_entries stages))
          (referee_team m))
unfolding windows_of get_team_playing_windows get
playing_flags-Marks stages m =
    Marks-some_is _ _
      (λ team_id.
        Marks-congr _ _ _ _ (λ j k. refl)
          (any-group_at (plays_meanwhile m) team_id (window_entries stages) [])
          (Marks-any _ (plays_meanwhile m) (λ e. Marks-when (plays_meanwhile m e) _ (either e))
            (group_at team_id (push_all [] (window_entries stages)))))
      (referee_team m)
  where
    either :
        (e : ConflictMatch × PlayingWindow)
        → Marks
            (λ j k. (m.id == j && key_eq referee_key k) || (is_definitive e.0 && window_flag e j k))
            true
    either e =
        Marks-or _ _ true (is_definitive e.0) (Marks-mark m.id referee_key)
          (Marks-when (is_definitive e.0) _ (window_flag-Marks e))

pub referee_flags-Marks :
    (stages : List ConflictStage)
    → Marks (referee_flags stages) (referee_plays stages || double_booked_referee stages)
referee_flags-Marks stages =
    Marks-or _ _ (referee_plays stages) (double_booked_referee stages)
      (Marks-any _ _ (playing_flags-Marks stages) (get_all_matches stages))
      (Marks-congr _ _ _ _ (λ j k. refl)
        (any_pair-grouped matches_overlap (referee_entries (get_all_matches stages)))
        (Marks-any _ (any_pair matches_overlap)
          (λ g.
            Marks-any_pair both_flags matches_overlap
              (λ m1 m2. Marks-when (matches_overlap m1 m2) _ (
                Marks-or _ _ true true (Marks-mark m1.id referee_key)
                  (Marks-mark m2.id referee_key)))
              g)
          (values (push_all [] (referee_entries (get_all_matches stages))))))
