-- ===== src/Conflicts/Teams/Effect.antt =====
-- conflicts.ts: what the team pass does to the flags.
use bracket.Base.{
  ℕ, ◌≡◌, refl, ◌⊎◌, inl, inr, Bool, true, false, ◌&&◌, ◌||◌, List, [], Option, none, some, arith,
  ◌==◌, ==_iff, if◌then◌else◌, is_num, any, any_pair, All, All-map, All-append, All-filter,
  All-flat_map_intro,
}
use bracket.Base.Int.{ℤ}
use bracket.Base.Store.{values, push_all, push_all-All}
use bracket.Conflicts.{
  ConflictInput, ConflictMatch, ConflictStage, PlayingWindow, is_definitive, get_all_matches,
}
use bracket.Conflicts.Flags.{
  FlagKey, input1, input2, throws, foreign_window, mark, ◌>>>◌, when, key_eq,
}
use bracket.Base.Grouping.{any_pair-grouped, any_pair-filter}
use bracket.Conflicts.Marks.{
  Marks, Marks-mark, Marks-or, Marks-when, Marks-any, Marks-any_pair, Marks-congr,
}
use bracket.Conflicts.Sets.{Sets, Sets-mark, Sets-seq, Sets-when, Sets-for_each, Sets-for_pairs}
use bracket.Conflicts.Listed.{InMatches}
use bracket.Conflicts.Teams.{
  get_team_ids_by_input_id, get_team_id, window_entry, slot_windows, windows_at, window_entries,
  get_team_playing_windows, set_stage_item_input_conflict, definitive_windows, clash, flag_window,
  set_team_overlap_conflicts,
}

-- The flag that `setStageItemInputConflict` sets.
abbrev pub window_flag : ConflictMatch × PlayingWindow → ℕ → FlagKey → Bool
window_flag (m, w) j k =
    m.id == j
    && key_eq (if is_num m.stage_item_input1_id w.stage_item_input_id then input1 else input2) k

-- Two definitive matches that one team plays clash, and j is one of them, with the team in slot k.
abbrev pub team_flags : List ConflictStage → ℕ → FlagKey → Bool
team_flags stages j k =
    any
      (λ team_windows.
        any_pair (λ e1 e2. clash e1 e2 && (window_flag e1 j k || window_flag e2 j k))
          (definitive_windows team_windows))
      (values (get_team_playing_windows stages))

-- A team plays in two definitive matches that overlap in time.
abbrev pub double_booked_team : List ConflictStage → Bool
double_booked_team stages =
    any_pair (λ e f. e.0 == f.0 && (is_definitive e.1.0 && (is_definitive f.1.0 && clash e.1 f.1)))
      (window_entries stages)

pub window_flag-Marks : (e : ConflictMatch × PlayingWindow) → Marks (window_flag e) true
window_flag-Marks (m, w) =
    Marks-mark m.id (if is_num m.stage_item_input1_id w.stage_item_input_id then input1 else input2)

pub team_flags-Marks :
    (stages : List ConflictStage) → Marks (team_flags stages) (double_booked_team stages)
unfolding get_team_playing_windows
team_flags-Marks stages =
    Marks-congr _ (team_flags stages) _ _ (λ j k. refl)
      (any_pair-grouped definitive_clash (window_entries stages))
      (Marks-any _ (any_pair definitive_clash) group_marks
        (values (push_all [] (window_entries stages))))
  where
    definitive_clash : ConflictMatch × PlayingWindow → ConflictMatch × PlayingWindow → Bool
    definitive_clash e f = is_definitive e.0 && (is_definitive f.0 && clash e f)

    group_marks :
        (es : List (ConflictMatch × PlayingWindow))
        → Marks
            (λ j k.
              any_pair
                (λ e1 e2. clash e1 e2 && (window_flag e1 j k || window_flag e2 j k))
                (definitive_windows es))
            (any_pair definitive_clash es)
    group_marks es =
        Marks-congr _ _ _ _ (λ j k. refl) (any_pair-filter clash (λ e. is_definitive e.0) es)
          (Marks-any_pair _ clash
            (λ e f.
              Marks-when (clash e f) _
                (Marks-or _ _ true true (window_flag-Marks e) (window_flag-Marks f)))
            (definitive_windows es))

module _ (K : ℕ → Bool) where
  -- The window is one of a listed match's own slots.
  abbrev pub Belongs : ConflictMatch × PlayingWindow → Type 0
  Belongs (m, w) =
      (K m.id ≡ true)
      × ((is_num m.stage_item_input1_id w.stage_item_input_id ≡ true)
          ⊎ (is_num m.stage_item_input2_id w.stage_item_input_id ≡ true))

  -- `setStageItemInputConflict`, for the values of its two tests.
  own_slot-Sets :
      (id : ℕ) (is_first is_second : Bool)
      → K id ≡ true
      → (is_first ≡ true) ⊎ (is_second ≡ true)
      → Sets K
          (λ j k. id == j && key_eq (if is_first then input1 else input2) k)
          (λ flags.
            if is_first
            then mark input1 id flags
            else if is_second
            then mark input2 id flags
            else throws foreign_window)
  own_slot-Sets id true is_second listed own = Sets-mark input1 id listed
  own_slot-Sets id false true listed own = Sets-mark input2 id listed
  own_slot-Sets id false false listed own = absurd (ground arith)

  pub set_stage_item_input_conflict-Sets :
      (m : ConflictMatch) (w : PlayingWindow)
      → Belongs (m, w)
      → Sets K (window_flag (m, w)) (set_stage_item_input_conflict m w)
  unfolding set_stage_item_input_conflict
  set_stage_item_input_conflict-Sets m w (listed, own) =
      own_slot-Sets m.id (is_num m.stage_item_input1_id w.stage_item_input_id)
        (is_num m.stage_item_input2_id w.stage_item_input_id) listed own

  window_entry-Belongs :
      (m : ConflictMatch) (start : ℤ) (input_id : ℕ) (team : Option ℕ)
      → K m.id ≡ true
      → (is_num m.stage_item_input1_id input_id ≡ true)
        ⊎ (is_num m.stage_item_input2_id input_id ≡ true)
      → All (λ e. Belongs e.1) (window_entry m start input_id team)
  unfolding window_entry
  window_entry-Belongs m start input_id none h own = tt
  window_entry-Belongs m start input_id (some team) h own = ((h, own), tt)

  slot_windows-Belongs :
      (ids : List (ℕ × ℕ)) (m : ConflictMatch) (start : ℤ) (slot : Option ℕ)
      (input : Option ConflictInput)
      → K m.id ≡ true
      → (m.stage_item_input1_id ≡ slot) ⊎ (m.stage_item_input2_id ≡ slot)
      → All (λ e. Belongs e.1) (slot_windows ids m start slot input)
  unfolding slot_windows
  slot_windows-Belongs ids m start none input h own = tt
  slot_windows-Belongs ids m start (some input_id) input h own =
      window_entry-Belongs m start input_id (get_team_id input_id input ids) h
        (ground (arith, ==_iff input_id input_id))

  windows_at-Belongs :
      (ids : List (ℕ × ℕ)) (m : ConflictMatch) (start : Option ℤ)
      → K m.id ≡ true
      → All (λ e. Belongs e.1) (windows_at ids m start)
  unfolding windows_at
  windows_at-Belongs ids m none h = tt
  windows_at-Belongs ids m (some start) h =
      All-append _ (slot_windows ids m start m.stage_item_input1_id m.stage_item_input1) _
        (slot_windows-Belongs ids m start m.stage_item_input1_id m.stage_item_input1 h (inl refl))
        (slot_windows-Belongs ids m start m.stage_item_input2_id m.stage_item_input2 h (inr refl))

  -- Every window of the map belongs to its match.
  pub get_team_playing_windows-Belongs :
      (stages : List ConflictStage)
      → InMatches K (get_all_matches stages)
      → All (All Belongs) (values (get_team_playing_windows stages))
  unfolding get_team_playing_windows window_entries
  get_team_playing_windows-Belongs stages h =
      let ids = get_team_ids_by_input_id stages in
      push_all-All Belongs (window_entries stages) []
        (All-flat_map_intro _ (λ m. windows_at ids m m.start_time) (get_all_matches stages)
          (All-map (λ m. windows_at-Belongs ids m m.start_time) (get_all_matches stages) h))
        tt

  pub set_team_overlap_conflicts-Sets :
      (stages : List ConflictStage)
      → InMatches K (get_all_matches stages)
      → Sets K (team_flags stages) (set_team_overlap_conflicts stages)
  unfolding set_team_overlap_conflicts
  set_team_overlap_conflicts-Sets stages h =
      Sets-for_each _ _ (values (get_team_playing_windows stages)) (
        All-map
          (λ windows t.
            Sets-for_pairs _ _ pair (definitive_windows windows)
              (All-filter Belongs (λ e. is_definitive e.0) windows t))
          _ (get_team_playing_windows-Belongs stages h))
    where
      pair :
          (e1 e2 : ConflictMatch × PlayingWindow)
          → Belongs e1
          → Belongs e2
          → Sets K
              (λ j k. clash e1 e2 && (window_flag e1 j k || window_flag e2 j k))
              (when (clash e1 e2) (flag_window e1 >>> flag_window e2))
      pair (m1, w1) (m2, w2) b c = Sets-when (clash (m1, w1) (m2, w2)) _ _ λ _.
          Sets-seq _ _ _ _ (set_stage_item_input_conflict-Sets m1 w1 b)
            (set_stage_item_input_conflict-Sets m2 w2 c)
