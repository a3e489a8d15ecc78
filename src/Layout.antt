-- ===== src/Layout.antt =====
-- frontend/src/logic/planning/layout.ts: the time-proportional grid of a schedule.
-- The source's minutes are fractions: instants, and offsets from the tournament start, are integers
-- of milliseconds here. The offset of an insertion line is halved, so it is held doubled.
pub mod Blocks
pub mod Lines
pub mod Pauses
pub mod Ruler
pub mod Tests
use bracket.Base.{
  ℕ, zero, suc, ◌+◌, ◌-◌, ◌*◌, ◌/◌, ◌≡◌, Bool, true, false, ◌||◌, List, [], ◌∷◌, map, Option, none,
  some, if◌then◌else◌, ltb, leb, is_some, length, filter, fold, max,
}
use bracket.Base.Int.{ℤ, pos, ◌+ℤ◌, ◌-ℤ◌, ltb_ℤ, max_ℤ, pos_part}
use bracket.Base.Store.{get}
use bracket.Base.Order.{sort}
use bracket.Conflicts.{millis}

-- A name is the list of its UTF-16 code units.
pub record LayoutCourt : Type 0 where
  pub id : ℕ
  pub name : List ℕ

pub data LayoutMatchState : Type 0 where
  not_started : LayoutMatchState
  in_progress : LayoutMatchState
  completed : LayoutMatchState

pub record LayoutMatch : Type 0 where
  pub id : ℕ
  pub duration_minutes : ℕ
  pub start_time : Option ℤ
  pub state : Option LayoutMatchState

pub record MatchBlock : Type 0 where
  pub match_ref : LayoutMatch
  pub start_minutes : ℤ
  pub duration_minutes : ℕ
  pub end_minutes : ℤ
  pub start_time : ℤ
  pub default_break_minutes : ℕ
  pub locked : Bool

pub record CourtTimeline : Type 0 where
  pub court : LayoutCourt
  pub blocks : List MatchBlock

pub record RulerTick : Type 0 where
  pub offset_minutes : ℕ
  pub time : ℤ

-- Without a total, `totalMinutes` is NaN.
pub record ScheduleGridLayout : Type 0 where
  pub courts : List CourtTimeline
  pub total_minutes : Option ℕ
  pub ticks : List RulerTick
  pub default_break_minutes : ℕ

pub record ScheduleLayoutInput : Type 0 where
  pub courts : List LayoutCourt
  pub matches_by_court_id : List (ℕ × List LayoutMatch)
  pub tournament_start_time : ℤ
  pub default_break_minutes : ℕ
  pub tick_interval_minutes : ℕ
  pub min_total_minutes : ℕ

-- `double_offset` is twice the offset.
pub record InsertionLine : Type 0 where
  pub index : ℕ
  pub double_offset : ℤ

unfoldable pub is_played : LayoutMatch → Bool
is_played m = elim m.state [
  | none ↦ false
  | some s ↦ elim s [ not_started ↦ false | in_progress ↦ true | completed ↦ true ]
]

-- The lines behind the block `previous`, which has the index `i` - 1, and behind each later one.
pub later_lines : ℕ → ℕ → MatchBlock → List MatchBlock → List InsertionLine
later_lines default_break_minutes i previous [] =
    record {
      index = i;
      double_offset =
          (previous.end_minutes +ℤ previous.end_minutes) +ℤ millis default_break_minutes;
    }
    ∷ []
later_lines default_break_minutes i previous (next ∷ blocks) =
    record { index = i; double_offset = previous.end_minutes +ℤ next.start_minutes }
    ∷ later_lines default_break_minutes (suc i) next blocks

pub all_lines : MatchBlock → List MatchBlock → List InsertionLine
unfolding later_lines
all_lines first blocks =
    record {
      index = 0;
      double_offset =
          max_ℤ (pos 0)
            ((first.start_minutes +ℤ first.start_minutes) -ℤ millis first.default_break_minutes);
    }
    ∷ later_lines first.default_break_minutes 1 first blocks

abbrev pub locked_blocks : List MatchBlock → ℕ
locked_blocks blocks = length (filter (λ b. b.locked) blocks)

unfoldable pub compute_insertion_lines : List MatchBlock → List InsertionLine
unfolding all_lines
compute_insertion_lines [] = record { index = 0; double_offset = pos 0 } ∷ []
compute_insertion_lines (first ∷ blocks) =
    filter (λ line. leb (locked_blocks (first ∷ blocks)) line.index) (all_lines first blocks)

pub record BreakBlock : Type 0 where
  pub match_id : ℕ
  pub index : ℕ
  pub start_minutes : ℤ
  pub end_minutes : ℤ
  pub duration_minutes : ℤ
  pub default_break_minutes : ℕ
  pub locked : Bool

pub later_breaks : ℕ → MatchBlock → List MatchBlock → List BreakBlock
later_breaks i previous [] = []
later_breaks i previous (next ∷ blocks) =
    record {
      match_id = next.match_ref.id;
      index = i;
      start_minutes = previous.end_minutes;
      end_minutes = next.start_minutes;
      duration_minutes = max_ℤ (pos 0) (next.start_minutes -ℤ previous.end_minutes);
      default_break_minutes = next.default_break_minutes;
      locked = next.locked;
    }
    ∷ later_breaks (suc i) next blocks

unfoldable pub compute_breaks : List MatchBlock → List BreakBlock
unfolding later_breaks
compute_breaks [] = []
compute_breaks (first ∷ blocks) =
    record {
      match_id = first.match_ref.id;
      index = 0;
      start_minutes = pos 0;
      end_minutes = first.start_minutes;
      duration_minutes = max_ℤ (pos 0) first.start_minutes;
      default_break_minutes = 0;
      locked = first.locked;
    }
    ∷ later_breaks 1 first blocks

-- `(count, m, index) => (isPlayed(m) ? index + 1 : count)`, on the pair of count and index.
pub count_locked : ℕ × ℕ → LayoutMatch → ℕ × ℕ
unfolding is_played
count_locked (count, index) m = ((if is_played m then suc index else count), suc index)

pub locked_count : List LayoutMatch → ℕ
unfolding count_locked
locked_count scheduled = (fold count_locked (0, 0) scheduled).0

layout_start : LayoutMatch → ℤ
layout_start m = elim m.start_time [ none ↦ pos 0 | some t ↦ t ]

pub starts_first : LayoutMatch → LayoutMatch → Bool
unfolding layout_start
starts_first a b = ltb_ℤ (layout_start a) (layout_start b)

pub scheduled_matches : List LayoutMatch → List LayoutMatch
unfolding starts_first sort
scheduled_matches matches = sort starts_first (filter (λ m. is_some m.start_time) matches)

module _ (tournament_start : ℤ) (default_break_minutes : ℕ) where
  pub block : LayoutMatch → Bool → MatchBlock
  unfolding layout_start
  block m locked = record {
    match_ref = m;
    start_minutes = layout_start m -ℤ tournament_start;
    duration_minutes = m.duration_minutes;
    end_minutes = (layout_start m -ℤ tournament_start) +ℤ millis m.duration_minutes;
    start_time = layout_start m;
    default_break_minutes = default_break_minutes;
    locked = locked;
  }

  -- The loop that pushes the blocks, with `pushed` blocks so far.
  pub push_blocks : ℕ → ℕ → List LayoutMatch → List MatchBlock
  unfolding block
  push_blocks locked_count pushed [] = []
  push_blocks locked_count pushed (m ∷ ms) =
      block m (ltb pushed locked_count) ∷ push_blocks locked_count (suc pushed) ms

  pub court_blocks : List LayoutMatch → List MatchBlock
  unfolding push_blocks locked_count scheduled_matches
  court_blocks matches =
      let scheduled = scheduled_matches matches in push_blocks (locked_count scheduled) 0 scheduled

-- The end of the last block and the break behind it.
pub court_end : ℕ → List MatchBlock → ℤ
court_end default_break_minutes [] = pos 0
court_end default_break_minutes (b ∷ []) = b.end_minutes +ℤ millis default_break_minutes
court_end default_break_minutes (b ∷ c ∷ blocks) = court_end default_break_minutes (c ∷ blocks)

-- `Math.ceil(end / interval) * interval`, NaN for no interval.
pub round_up : ℕ → ℕ → Option ℕ
round_up end zero = none
round_up end (suc n) = some ((end + n) / suc n * suc n)

-- The loop `for (offset; offset <= total; offset += interval)`, none when the fuel runs out.
pub tick_offsets : (fuel offset total interval : ℕ) → Option (List ℕ)
tick_offsets zero offset total interval = none
tick_offsets (suc fuel) offset total interval =
    let rest = tick_offsets fuel (offset + interval) total interval in
    if leb offset total
    then elim rest [ none ↦ none | some offsets ↦ some (offset ∷ offsets) ]
    else some []

pub tick : ℤ → ℕ → RulerTick
tick start_time offset = record { offset_minutes = offset; time = start_time +ℤ pos offset }

-- Each round of the loop but the last moves the offset on.
pub compute_ticks : ℤ → Option ℕ → ℕ → Option (List RulerTick)
unfolding tick_offsets tick
compute_ticks start_time none interval = some []
compute_ticks start_time (some total) interval =
    elim (tick_offsets (suc (suc (total / interval))) 0 total interval) [
      | none ↦ none
      | some offsets ↦ some (map (tick start_time) offsets)
    ]

unfoldable pub court_timelines : ScheduleLayoutInput → List CourtTimeline
unfolding court_blocks get
court_timelines input =
    map
      (λ c. record {
        court = c;
        blocks =
            court_blocks input.tournament_start_time input.default_break_minutes
              (elim (get c.id input.matches_by_court_id) [ none ↦ [] | some matches ↦ matches ]);
      })
      input.courts

-- `Math.max(minTotalMinutes, ...ends)`
pub max_end_minutes : ScheduleLayoutInput → ℕ
unfolding court_timelines court_end
max_end_minutes input = pos_part (
    fold (λ end timeline. max_ℤ end (court_end input.default_break_minutes timeline.blocks))
      (millis input.min_total_minutes) (court_timelines input))

pub total_minutes : ScheduleLayoutInput → Option ℕ
unfolding round_up max_end_minutes
total_minutes input = round_up (max_end_minutes input) (input.tick_interval_minutes * 60_000)

pub compute_schedule_layout : ScheduleLayoutInput → Option ScheduleGridLayout
unfolding court_timelines total_minutes compute_ticks
compute_schedule_layout input =
    elim (compute_ticks input.tournament_start_time (total_minutes input)
      (input.tick_interval_minutes * 60_000)) [
        | none ↦ none
        | some ticks ↦ some (record {
          courts = court_timelines input;
          total_minutes = total_minutes input;
          ticks = ticks;
          default_break_minutes = input.default_break_minutes;
        })
      ]
