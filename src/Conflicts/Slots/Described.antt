-- ===== src/Conflicts/Slots/Described.antt =====
-- conflicts.ts: the slot pass sees the slots that are described.
use bracket.Base.{
  ℕ, ◌≡◌, refl, ap, Bool, true, false, ◌&&◌, List, Option, none, some, ◌==◌, All, All-append,
  All-intro, All-flat_map_intro,
}
use bracket.Base.Int.{ℤ}
use bracket.Base.Keyed.{any_pair_congr_All}
use bracket.Conflicts.{ConflictMatch, ConflictStage, get_all_matches}
use bracket.Conflicts.Described.{slot_in_two}
use bracket.Conflicts.Precedence.Times.{end_millis-end_from}
use bracket.Conflicts.Teams.Described.{Lasts, ranges-overlap}
use bracket.Conflicts.Slots.{
  Side, first_side, second_side, referee_side, SlotOccupancy, slot_entry, started_occupancies,
  occupancies_at, match_occupancies, slot_occupancies, occupancies_overlap, double_booked_slot,
}

abbrev IsOccupancy : ℕ × SlotOccupancy → Type 0
IsOccupancy e = Lasts e.1.match e.1.start_millis e.1.end_millis

slot_entry-IsOccupancy :
    (m : ConflictMatch) (start : ℤ) (slot : Option ℕ) (side : Side)
    → m.start_time ≡ some start
    → All IsOccupancy (slot_entry m start slot side)
unfolding slot_entry
slot_entry-IsOccupancy m start none side h = tt
slot_entry-IsOccupancy m start (some slot) side h = ((h, end_millis-end_from m start h), tt)

started-IsOccupancy :
    (referees_enabled : Bool) (m : ConflictMatch) (start : ℤ)
    → m.start_time ≡ some start
    → All IsOccupancy (started_occupancies referees_enabled m start)
unfolding started_occupancies
started-IsOccupancy true m start h =
    All-append IsOccupancy (slot_entry m start m.stage_item_input1_id first_side) _
      (slot_entry-IsOccupancy m start m.stage_item_input1_id first_side h)
      (All-append IsOccupancy (slot_entry m start m.stage_item_input2_id second_side) _
        (slot_entry-IsOccupancy m start m.stage_item_input2_id second_side h)
        (slot_entry-IsOccupancy m start m.referee_stage_item_input_id referee_side h))
started-IsOccupancy false m start h =
    All-append IsOccupancy (slot_entry m start m.stage_item_input1_id first_side) _
      (slot_entry-IsOccupancy m start m.stage_item_input1_id first_side h)
      (All-append IsOccupancy (slot_entry m start m.stage_item_input2_id second_side) _
        (slot_entry-IsOccupancy m start m.stage_item_input2_id second_side h) tt)

match_occupancies-IsOccupancy :
    (referees_enabled : Bool) (m : ConflictMatch)
    → All IsOccupancy (match_occupancies referees_enabled m)
unfolding match_occupancies occupancies_at
match_occupancies-IsOccupancy referees_enabled m = at m.start_time refl
  where
    at : (o : Option ℤ) → m.start_time ≡ o → All IsOccupancy (occupancies_at referees_enabled m o)
    at none h = tt
    at (some start) h = started-IsOccupancy referees_enabled m start h

pub double_booked_slot-described :
    (stages : List ConflictStage) (referees_enabled : Bool)
    → double_booked_slot stages referees_enabled ≡ slot_in_two stages referees_enabled
unfolding slot_occupancies occupancies_overlap
double_booked_slot-described stages referees_enabled =
    any_pair_congr_All IsOccupancy _ _
      (λ e f p q.
        ap (λ b. e.0 == f.0 && b)
          (ranges-overlap e.1.match f.1.match e.1.start_millis e.1.end_millis f.1.start_millis
            f.1.end_millis p q))
      (slot_occupancies stages referees_enabled)
      (All-flat_map_intro IsOccupancy (match_occupancies referees_enabled) (get_all_matches stages)
        (All-intro (match_occupancies-IsOccupancy referees_enabled) (get_all_matches stages)))
