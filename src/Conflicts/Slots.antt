-- ===== src/Conflicts/Slots.antt =====
-- conflicts.ts: the slot pass. A slot, resolved to a team or not, takes part in one match at a time.
pub mod Described
use bracket.Base.{
  ℕ, ◌≡◌, refl, Bool, true, false, ◌&&◌, ◌||◌, List, [], ◌∷◌, ◌++◌, Option, none, some, ◌==◌,
  if◌then◌else◌, any, any_pair, All, All-map, All-append, All-flat_map_intro, flat_map,
}
use bracket.Base.Int.{ℤ}
use bracket.Base.Store.{get, put, values, push_all, push_all-All}
use bracket.Conflicts.{
  ConflictMatch, ConflictStage, end_millis, time_ranges_overlap, get_all_matches,
}
use bracket.Conflicts.Flags.{
  FlagKey, input1, input2, referee_key, Code, mark, ◌>>>◌, when, for_each, for_pairs, key_eq,
}
use bracket.Base.Grouping.{any_pair-grouped}
use bracket.Conflicts.Marks.{
  Marks, Marks-mark, Marks-or, Marks-when, Marks-any, Marks-any_pair, Marks-congr,
}
use bracket.Conflicts.Sets.{Sets, Sets-mark, Sets-seq, Sets-when, Sets-for_each, Sets-for_pairs}
use bracket.Conflicts.Listed.{InMatches}

-- `playingSide`: 1, 2, or null for the referee.
pub data Side : Type 0 where
  first_side second_side referee_side : Side

pub record SlotOccupancy : Type 0 where
  pub match : ConflictMatch
  pub start_millis : ℤ
  pub end_millis : ℤ
  pub playing_side : Side

pub side_key : Side → FlagKey
side_key first_side = input1
side_key second_side = input2
side_key referee_side = referee_key

pub flag_slot_occupancy : SlotOccupancy → Code
unfolding side_key
flag_slot_occupancy occupancy = mark (side_key occupancy.playing_side) occupancy.match.id

slot_entry : ConflictMatch → ℤ → Option ℕ → Side → List (ℕ × SlotOccupancy)
slot_entry m start none side = []
slot_entry m start (some slot_id) side =
    (
      slot_id,
      record { match = m; start_millis = start; end_millis = end_millis m; playing_side = side },
    )
    ∷ []

-- The occupancies of a match that starts at `start`; the referee's slot counts only if referees
-- are enabled.
started_occupancies : Bool → ConflictMatch → ℤ → List (ℕ × SlotOccupancy)
unfolding slot_entry
started_occupancies referees_enabled m start =
    slot_entry m start m.stage_item_input1_id first_side
    ++ (slot_entry m start m.stage_item_input2_id second_side
        ++ (if referees_enabled
            then slot_entry m start m.referee_stage_item_input_id referee_side
            else []))

occupancies_at : Bool → ConflictMatch → Option ℤ → List (ℕ × SlotOccupancy)
unfolding started_occupancies
occupancies_at referees_enabled m none = []
occupancies_at referees_enabled m (some start) = started_occupancies referees_enabled m start

pub match_occupancies : Bool → ConflictMatch → List (ℕ × SlotOccupancy)
unfolding occupancies_at
match_occupancies referees_enabled m = occupancies_at referees_enabled m m.start_time

pub slot_occupancies : List ConflictStage → Bool → List (ℕ × SlotOccupancy)
unfolding match_occupancies get_all_matches
slot_occupancies stages referees_enabled =
    flat_map (match_occupancies referees_enabled) (get_all_matches stages)

pub occupancies_overlap : SlotOccupancy → SlotOccupancy → Bool
occupancies_overlap o1 o2 =
    time_ranges_overlap o1.start_millis o1.end_millis o2.start_millis o2.end_millis

unfoldable pub set_slot_overlap_conflicts : List ConflictStage → Bool → Code
unfolding slot_occupancies occupancies_overlap flag_slot_occupancy get put
set_slot_overlap_conflicts stages referees_enabled =
    for_each (values (push_all [] (slot_occupancies stages referees_enabled))) λ occupancies.
      for_pairs occupancies λ o1 o2.
        when (occupancies_overlap o1 o2) (flag_slot_occupancy o1 >>> flag_slot_occupancy o2)

-- Two occupancies of one slot overlap, and j is the match of one of them, in the role of k.
abbrev pub pair_flags : SlotOccupancy → SlotOccupancy → ℕ → FlagKey → Bool
pair_flags o1 o2 j k =
    occupancies_overlap o1 o2
    && ((o1.match.id == j && key_eq (side_key o1.playing_side) k)
        || (o2.match.id == j && key_eq (side_key o2.playing_side) k))

abbrev pub slot_flags : List ConflictStage → Bool → ℕ → FlagKey → Bool
slot_flags stages referees_enabled j k =
    any (λ occupancies. any_pair (λ o1 o2. pair_flags o1 o2 j k) occupancies)
      (values (push_all [] (slot_occupancies stages referees_enabled)))

-- Two matches that overlap in time occupy one slot.
abbrev pub double_booked_slot : List ConflictStage → Bool → Bool
double_booked_slot stages referees_enabled =
    any_pair (λ e f. e.0 == f.0 && occupancies_overlap e.1 f.1)
      (slot_occupancies stages referees_enabled)

pub slot_flags-Marks :
    (stages : List ConflictStage) (referees_enabled : Bool)
    → Marks (slot_flags stages referees_enabled) (double_booked_slot stages referees_enabled)
slot_flags-Marks stages referees_enabled =
    Marks-congr _ (slot_flags stages referees_enabled) _ _ (λ j k. refl)
      (any_pair-grouped occupancies_overlap (slot_occupancies stages referees_enabled))
      (Marks-any _ (any_pair occupancies_overlap)
        (λ os. Marks-any_pair pair_flags occupancies_overlap pair os)
        (values (push_all [] (slot_occupancies stages referees_enabled))))
  where
    pair : (o1 o2 : SlotOccupancy) → Marks (pair_flags o1 o2) (occupancies_overlap o1 o2)
    pair o1 o2 = Marks-when (occupancies_overlap o1 o2) _ (
        Marks-or _ _ true true (Marks-mark o1.match.id (side_key o1.playing_side))
          (Marks-mark o2.match.id (side_key o2.playing_side)))

module _ (K : ℕ → Bool) where
  slot_entry-listed :
      (m : ConflictMatch) (start : ℤ) (slot : Option ℕ) (side : Side)
      → K m.id ≡ true
      → All (λ e. K e.1.match.id ≡ true) (slot_entry m start slot side)
  unfolding slot_entry
  slot_entry-listed m start none side h = tt
  slot_entry-listed m start (some slot) side h = (h, tt)

  started-listed :
      (m : ConflictMatch) (start : ℤ) (referees_enabled : Bool)
      → K m.id ≡ true
      → All (λ e. K e.1.match.id ≡ true) (started_occupancies referees_enabled m start)
  unfolding started_occupancies
  started-listed m start true h =
      All-append _ (slot_entry m start m.stage_item_input1_id first_side) _
        (slot_entry-listed m start m.stage_item_input1_id first_side h)
        (All-append _ (slot_entry m start m.stage_item_input2_id second_side) _
          (slot_entry-listed m start m.stage_item_input2_id second_side h)
          (slot_entry-listed m start m.referee_stage_item_input_id referee_side h))
  started-listed m start false h =
      All-append _ (slot_entry m start m.stage_item_input1_id first_side) _
        (slot_entry-listed m start m.stage_item_input1_id first_side h)
        (All-append _ (slot_entry m start m.stage_item_input2_id second_side) _
          (slot_entry-listed m start m.stage_item_input2_id second_side h) tt)

  match_occupancies-listed :
      (referees_enabled : Bool) (m : ConflictMatch)
      → K m.id ≡ true
      → All (λ e. K e.1.match.id ≡ true) (match_occupancies referees_enabled m)
  unfolding match_occupancies
  match_occupancies-listed referees_enabled m h = go m.start_time
    where
      go : (o : Option ℤ) → All (λ e. K e.1.match.id ≡ true) (occupancies_at referees_enabled m o)
      go none = tt
      go (some start) = started-listed m start referees_enabled h

  pub set_slot_overlap_conflicts-Sets :
      (stages : List ConflictStage) (referees_enabled : Bool)
      → InMatches K (get_all_matches stages)
      → Sets K
          (slot_flags stages referees_enabled)
          (set_slot_overlap_conflicts stages referees_enabled)
  unfolding set_slot_overlap_conflicts
  set_slot_overlap_conflicts-Sets stages referees_enabled h =
      Sets-for_each _ _ (values (push_all [] (slot_occupancies stages referees_enabled))) (
        All-map (λ occupancies t. Sets-for_pairs _ _ pair occupancies t) _
          (push_all-All (λ o. K o.match.id ≡ true) (slot_occupancies stages referees_enabled) []
            (All-flat_map_intro _ (match_occupancies referees_enabled) (get_all_matches stages)
              (All-map (match_occupancies-listed referees_enabled) (get_all_matches stages) h))
            tt))
    where
      pair :
          (o1 o2 : SlotOccupancy)
          → K o1.match.id ≡ true
          → K o2.match.id ≡ true
          → Sets K
              (pair_flags o1 o2)
              (when (occupancies_overlap o1 o2) (flag_slot_occupancy o1 >>> flag_slot_occupancy o2))
      pair o1 o2 p q = Sets-when (occupancies_overlap o1 o2) _ _ λ _.
          Sets-seq _ _ _ _ (Sets-mark (side_key o1.playing_side) o1.match.id p)
            (Sets-mark (side_key o2.playing_side) o2.match.id q)
