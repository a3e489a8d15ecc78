-- ===== src/Conflicts/Teams/Described.antt =====
-- conflicts.ts: the team pass sees the teams that are described.
use bracket.Base.{
  ℕ, ◌≡◌, refl, List, Option, none, some, arith, All, All-append, All-intro, All-flat_map_intro,
}
use bracket.Base.Int.{ℤ}
use bracket.Base.Keyed.{any_pair_congr_All}
use bracket.Conflicts.{
  ConflictInput, ConflictMatch, ConflictStage, PlayingWindow, time_ranges_overlap, get_all_matches,
}
use bracket.Conflicts.Described.{end_from, overlap, team_plays_twice}
use bracket.Conflicts.Precedence.Times.{end_millis-end_from}
use bracket.Conflicts.Teams.{
  get_team_ids_by_input_id, get_team_id, window_entry, slot_windows, windows_at, window_entries,
}
use bracket.Conflicts.Teams.Effect.{double_booked_team}

-- A window lasts from the start to the end of a match.
abbrev pub Lasts : ConflictMatch → (start end : ℤ) → Type 0
Lasts m start end = (m.start_time ≡ some start) × (end ≡ end_from m start)

abbrev pub IsWindow : ℕ × (ConflictMatch × PlayingWindow) → Type 0
IsWindow e = Lasts e.1.0 e.1.1.start_millis e.1.1.end_millis

pub ranges-overlap :
    (m n : ConflictMatch) (s e t f : ℤ)
    → Lasts m s e
    → Lasts n t f
    → time_ranges_overlap s e t f ≡ overlap m n
ranges-overlap m n s e t f (a, b) (c, d) = rw (a, c, b, d) refl

window_entry-IsWindow :
    (m : ConflictMatch) (start : ℤ) (input_id : ℕ) (team : Option ℕ)
    → m.start_time ≡ some start
    → All IsWindow (window_entry m start input_id team)
unfolding window_entry
window_entry-IsWindow m start input_id none h = tt
window_entry-IsWindow m start input_id (some team_id) h = ((h, end_millis-end_from m start h), tt)

slot_windows-IsWindow :
    (ids : List (ℕ × ℕ)) (m : ConflictMatch) (start : ℤ) (slot : Option ℕ)
    (input : Option ConflictInput)
    → m.start_time ≡ some start
    → All IsWindow (slot_windows ids m start slot input)
unfolding slot_windows
slot_windows-IsWindow ids m start none input h = tt
slot_windows-IsWindow ids m start (some input_id) input h =
    window_entry-IsWindow m start input_id (get_team_id input_id input ids) h

windows_at-IsWindow :
    (ids : List (ℕ × ℕ)) (m : ConflictMatch) (o : Option ℤ)
    → m.start_time ≡ o
    → All IsWindow (windows_at ids m o)
unfolding windows_at
windows_at-IsWindow ids m none h = tt
windows_at-IsWindow ids m (some start) h =
    All-append IsWindow (slot_windows ids m start m.stage_item_input1_id m.stage_item_input1) _
      (slot_windows-IsWindow ids m start m.stage_item_input1_id m.stage_item_input1 h)
      (slot_windows-IsWindow ids m start m.stage_item_input2_id m.stage_item_input2 h)

pub window_entries-IsWindow : (stages : List ConflictStage) → All IsWindow (window_entries stages)
unfolding window_entries
window_entries-IsWindow stages =
    All-flat_map_intro IsWindow (λ m. windows_at (get_team_ids_by_input_id stages) m m.start_time)
      (get_all_matches stages)
      (All-intro (λ m. windows_at-IsWindow (get_team_ids_by_input_id stages) m m.start_time refl)
        (get_all_matches stages))

pub double_booked_team-described :
    (stages : List ConflictStage) → double_booked_team stages ≡ team_plays_twice stages
double_booked_team-described stages =
    any_pair_congr_All IsWindow _ _
      (λ e f p q.
        let same =
          ranges-overlap e.1.0 f.1.0 e.1.1.start_millis e.1.1.end_millis f.1.1.start_millis
            f.1.1.end_millis p q in
        ground (arith, same))
      (window_entries stages) (window_entries-IsWindow stages)
