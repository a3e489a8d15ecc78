-- ===== src/Conflicts/Referees/Described.antt =====
-- conflicts.ts: the referee pass sees the referees that are described.
use bracket.Base.{
  ◌≡◌, refl, ap, true, ◌&&◌, List, none, some, arith, inl, inr, Option-cases, ◌==◌, is_some, any,
  any_congr, All-map, All-intro,
}
use bracket.Base.Int.{ℤ}
use bracket.Base.Keyed.{holds, any_congr_All, any_pair_congr_All}
use bracket.Conflicts.{
  ConflictMatch, ConflictStage, end_millis, start_or_zero, matches_overlap, get_all_matches,
}
use bracket.Conflicts.Flags.{some_is}
use bracket.Conflicts.Described.{overlap, referee_in_play, referee_in_two}
use bracket.Conflicts.Precedence.Times.{end_millis-end_from}
use bracket.Conflicts.Teams.{window_entries}
use bracket.Conflicts.Teams.Described.{Lasts, window_entries-IsWindow, ranges-overlap}
use bracket.Conflicts.Referees.{referee_of, referee_team, plays_meanwhile, referee_entries}
use bracket.Conflicts.Referees.Clean.{referee_plays, double_booked_referee}

lasts :
    (m : ConflictMatch) (start : ℤ)
    → m.start_time ≡ some start
    → Lasts m (start_or_zero m) (end_millis m)
lasts m start e =
    let zero : start_or_zero m ≡ start = rw (start_or_zero, e) refl in
    rw zero (e, end_millis-end_from m start e)

matches_overlap-overlap : (m n : ConflictMatch) → matches_overlap m n ≡ overlap m n
unfolding matches_overlap
matches_overlap-overlap m n = elim (Option-cases m.start_time) [
  | inl e ↦ rw (matches_overlap, e) refl
  | inr (s, e) ↦ elim (Option-cases n.start_time) [
    | inl f ↦ rw (matches_overlap, e, f) refl
    | inr (t, f) ↦
        let ranges =
          ranges-overlap m n (start_or_zero m) (end_millis m) (start_or_zero n) (end_millis n)
            (lasts m s e) (lasts n t f) in
        let first : is_some m.start_time ≡ true = rw e refl in
        let second : is_some n.start_time ≡ true = rw f refl in
        ground (arith, ranges, first, second)
  ]
]

-- A match with a referee's team is scheduled.
referee_team-none : (m : ConflictMatch) → m.start_time ≡ none → referee_team m ≡ none
unfolding referee_team referee_of
referee_team-none m e = rw (referee_of, e) refl

plays_described :
    (stages : List ConflictStage) (m : ConflictMatch)
    → some_is
        (λ team_id. any (λ e. e.0 == team_id && plays_meanwhile m e.1) (window_entries stages))
        (referee_team m)
      ≡ holds
          (λ team_id. any (λ e. e.0 == team_id && overlap m e.1.0) (window_entries stages))
          (referee_team m)
plays_described stages m = elim (Option-cases m.start_time) [
  | inl e ↦ let no_team = referee_team-none m e in rw no_team refl
  | inr (s, e) ↦ elim (Option-cases (referee_team m)) [
    | inl none_there ↦ rw none_there refl
    | inr (team_id, f) ↦ rw f (
        any_congr_All _ _ (window_entries stages) (
          All-map
            (λ x w.
              ap (λ b. x.0 == team_id && b)
                (ranges-overlap m x.1.0 (start_or_zero m) (end_millis m) x.1.1.start_millis
                  x.1.1.end_millis (lasts m s e) w))
            (window_entries stages) (window_entries-IsWindow stages)))
  ]
]

pub referee_plays-described :
    (stages : List ConflictStage) → referee_plays stages ≡ referee_in_play stages
referee_plays-described stages = any_congr _ _ (plays_described stages) (get_all_matches stages)

pub double_booked_referee-described :
    (stages : List ConflictStage) → double_booked_referee stages ≡ referee_in_two stages
double_booked_referee-described stages =
    any_pair_congr_All {0, 0} (λ e. Unit) _ _
      (λ e f p q. ap (λ b. e.0 == f.0 && b) (matches_overlap-overlap e.1 f.1))
      (referee_entries (get_all_matches stages))
      (All-intro (λ e. tt) (referee_entries (get_all_matches stages)))
