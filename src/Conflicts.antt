-- ===== src/Conflicts.antt =====
-- frontend/src/logic/planning/conflicts.ts: the data of the conflict engine. An ISO start time is
-- the instant that it denotes, in milliseconds since the epoch; ids and durations are natural numbers.
pub mod Flags
pub mod Sets
pub mod Described
pub mod Marks
pub mod Listed
pub mod Precedence
pub mod Rounds
pub mod Breaks
pub mod Slots
pub mod Teams
pub mod Referees
pub mod Compute
mod Tests
use bracket.Base.{ℕ, ◌*◌, Bool, true, false, ◌&&◌, List, Option, none, some, is_some, flat_map}
use bracket.Base.Int.{ℤ, pos, ◌+ℤ◌, ltb_ℤ}

pub record ConflictInput : Type 0 where
  pub id : ℕ
  pub team_id : Option ℕ
  pub winner_from_stage_item_id : Option ℕ

pub record ConflictMatch : Type 0 where
  pub id : ℕ
  pub start_time : Option ℤ
  pub duration_minutes : ℕ
  pub court_id : Option ℕ
  pub stage_item_input1 : Option ConflictInput
  pub stage_item_input2 : Option ConflictInput
  pub stage_item_input1_id : Option ℕ
  pub stage_item_input2_id : Option ℕ
  pub stage_item_input1_winner_from_match_id : Option ℕ
  pub stage_item_input2_winner_from_match_id : Option ℕ
  pub referee_stage_item_input_id : Option ℕ
  pub referee : Option ConflictInput

pub record ConflictRound : Type 0 where
  pub id : ℕ
  pub matches : List ConflictMatch

pub data StageItemType : Type 0 where
  round_robin single_elimination swiss mexicano : StageItemType

pub record ConflictStageItem : Type 0 where
  pub id : ℕ
  pub type : StageItemType
  pub inputs : List ConflictInput
  pub rounds : List ConflictRound

pub record ConflictStage : Type 0 where
  pub stage_items : List ConflictStageItem

pub record PlayingWindow : Type 0 where
  pub stage_item_input_id : ℕ
  pub start_millis : ℤ
  pub end_millis : ℤ

-- `minutes * 60_000`
abbrev pub millis : ℕ → ℤ
millis minutes = pos (minutes * 60_000)

abbrev pub start_millis : ConflictMatch → Option ℤ
start_millis m = m.start_time

-- `new Date(null)` is the epoch; every caller has tested the start time.
abbrev pub end_millis : ConflictMatch → ℤ
end_millis m = elim m.start_time [
  | none ↦ pos 0 +ℤ millis m.duration_minutes
  | some t ↦ t +ℤ millis m.duration_minutes
]

abbrev pub time_ranges_overlap : (start1 end1 start2 end2 : ℤ) → Bool
time_ranges_overlap start1 end1 start2 end2 = ltb_ℤ start1 end2 && ltb_ℤ start2 end1

abbrev pub windows_overlap : PlayingWindow → PlayingWindow → Bool
windows_overlap w1 w2 =
    time_ranges_overlap w1.start_millis w1.end_millis w2.start_millis w2.end_millis

-- The instant of a start time, the epoch if it is null.
abbrev pub start_or_zero : ConflictMatch → ℤ
start_or_zero m = elim m.start_time [ none ↦ pos 0 | some t ↦ t ]

unfoldable pub matches_overlap : ConflictMatch → ConflictMatch → Bool
matches_overlap m1 m2 =
    is_some m1.start_time
    && is_some m2.start_time
    && time_ranges_overlap (start_or_zero m1) (end_millis m1) (start_or_zero m2) (end_millis m2)

unfoldable pub is_definitive : ConflictMatch → Bool
is_definitive m = is_some m.stage_item_input1 && is_some m.stage_item_input2

unfoldable pub get_all_matches : List ConflictStage → List ConflictMatch
get_all_matches =
    flat_map
      λ stage. flat_map (λ item. flat_map (λ round. round.matches) item.rounds) stage.stage_items
