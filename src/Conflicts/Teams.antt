-- ===== src/Conflicts/Teams.antt =====
-- conflicts.ts: the team pass. A team plays one match at a time, whichever slots it is in.
pub mod Effect
pub mod Described
use bracket.Base.{
  ℕ, ◌≡◌, refl, ◌⊎◌, inl, inr, Bool, true, false, not, ◌&&◌, ◌||◌, List, [], ◌∷◌, ◌++◌, Option,
  none, some, arith, ◌==◌, ==_iff, if◌then◌else◌, is_num, any, any_pair, All, All-map, All-append,
  All-filter, All-flat_map_intro, flat_map, filter, fold,
}
use bracket.Base.Int.{ℤ}
use bracket.Base.Store.{get, put, values, push_all, push_all-All}
use bracket.Conflicts.{
  ConflictInput, ConflictMatch, ConflictStageItem, ConflictStage, PlayingWindow, end_millis,
  windows_overlap, is_definitive, get_all_matches,
}
use bracket.Conflicts.Flags.{
  FlagKey, input1, input2, throws, foreign_window, Code, mark, ◌>>>◌, when, for_each, for_pairs,
  key_eq,
}
use bracket.Base.Grouping.{any_pair-grouped, any_pair-filter}
use bracket.Conflicts.Marks.{
  Marks, Marks-mark, Marks-or, Marks-when, Marks-any, Marks-any_pair, Marks-congr,
}
use bracket.Conflicts.Sets.{Sets, Sets-mark, Sets-seq, Sets-when, Sets-for_each, Sets-for_pairs}
use bracket.Conflicts.Listed.{InMatches}

-- The inner function `set` of `getTeamIdsByInputId`.
note_team : List (ℕ × ℕ) → Option ConflictInput → List (ℕ × ℕ)
note_team ids none = ids
note_team ids (some input) = elim input.team_id [
  | none ↦ ids
  | some team_id ↦ put input.id team_id ids
]

note_match : List (ℕ × ℕ) → ConflictMatch → List (ℕ × ℕ)
unfolding note_team
note_match ids m = note_team (note_team ids m.stage_item_input1) m.stage_item_input2

note_item : List (ℕ × ℕ) → ConflictStageItem → List (ℕ × ℕ)
unfolding note_match
note_item ids item =
    fold (λ acc round. fold note_match acc round.matches)
      (fold (λ acc input. note_team acc (some input)) ids item.inputs) item.rounds

pub get_team_ids_by_input_id : List ConflictStage → List (ℕ × ℕ)
unfolding note_item
get_team_ids_by_input_id = fold (λ ids stage. fold note_item ids stage.stage_items) []

team_of : Option ConflictInput → Option ℕ
team_of none = none
team_of (some input) = input.team_id

or_else : Option ℕ → Option ℕ → Option ℕ
or_else none other = other
or_else (some team_id) other = some team_id

pub get_team_id : ℕ → Option ConflictInput → List (ℕ × ℕ) → Option ℕ
unfolding team_of or_else
get_team_id input_id input team_ids_by_input_id =
    or_else (team_of input) (get input_id team_ids_by_input_id)

-- One slot of a match that starts at `start`, under the team that plays in it.
window_entry : ConflictMatch → ℤ → ℕ → Option ℕ → List (ℕ × (ConflictMatch × PlayingWindow))
window_entry m start input_id none = []
window_entry m start input_id (some team_id) =
    (
      team_id,
      (
        m,
        record { stage_item_input_id = input_id; start_millis = start; end_millis = end_millis m },
      ),
    )
    ∷ []

slot_windows :
    List (ℕ × ℕ)
    → ConflictMatch
    → ℤ
    → Option ℕ
    → Option ConflictInput
    → List (ℕ × (ConflictMatch × PlayingWindow))
unfolding window_entry get_team_id
slot_windows ids m start none input = []
slot_windows ids m start (some input_id) input =
    window_entry m start input_id (get_team_id input_id input ids)

windows_at : List (ℕ × ℕ) → ConflictMatch → Option ℤ → List (ℕ × (ConflictMatch × PlayingWindow))
unfolding slot_windows
windows_at ids m none = []
windows_at ids m (some start) =
    slot_windows ids m start m.stage_item_input1_id m.stage_item_input1
    ++ slot_windows ids m start m.stage_item_input2_id m.stage_item_input2

-- The playing windows of all matches under their teams, in the order in which the loop meets them.
pub window_entries : List ConflictStage → List (ℕ × (ConflictMatch × PlayingWindow))
unfolding windows_at get_team_ids_by_input_id get_all_matches
window_entries stages =
    flat_map (λ m. windows_at (get_team_ids_by_input_id stages) m m.start_time)
      (get_all_matches stages)

unfoldable pub get_team_playing_windows :
    List ConflictStage → List (ℕ × List (ConflictMatch × PlayingWindow))
unfolding window_entries get put
get_team_playing_windows stages = push_all [] (window_entries stages)

unfoldable pub set_stage_item_input_conflict : ConflictMatch → PlayingWindow → Code
set_stage_item_input_conflict m window flags =
    if is_num m.stage_item_input1_id window.stage_item_input_id
    then mark input1 m.id flags
    else if is_num m.stage_item_input2_id window.stage_item_input_id
    then mark input2 m.id flags
    else throws foreign_window

abbrev pub definitive_windows :
    List (ConflictMatch × PlayingWindow) → List (ConflictMatch × PlayingWindow)
definitive_windows = filter λ e. is_definitive e.0

-- Two windows of one team: different matches at overlapping times.
abbrev pub clash : ConflictMatch × PlayingWindow → ConflictMatch × PlayingWindow → Bool
clash (m1, w1) (m2, w2) = not (m1.id == m2.id || not (windows_overlap w1 w2))

abbrev flag_window : ConflictMatch × PlayingWindow → Code
flag_window (m, w) = set_stage_item_input_conflict m w

unfoldable pub set_team_overlap_conflicts : List ConflictStage → Code
unfolding get_team_playing_windows set_stage_item_input_conflict
set_team_overlap_conflicts stages =
    for_each (values (get_team_playing_windows stages)) λ team_windows.
      for_pairs (definitive_windows team_windows)
        λ e1 e2. when (clash e1 e2) (flag_window e1 >>> flag_window e2)
