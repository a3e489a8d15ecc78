-- ===== src/Conflicts/Breaks.antt =====
-- conflicts.ts: the short break pass. Consecutive matches of a court keep the default break.
pub mod Described
use bracket.Base.{
  ℕ, ◌≡◌, Bool, true, false, ◌&&◌, List, [], ◌∷◌, Option, none, some, ltb, ◌==◌, if◌then◌else◌, any,
  any_adjacent, All, All-map, All-flat_map_intro, flat_map,
}
use bracket.Base.Int.{ℤ, ◌-ℤ◌, ltb_ℤ}
use bracket.Base.Store.{get, put, values, push_all, push_all-All}
use bracket.Base.Order.{sort, sort-All}
use bracket.Conflicts.{ConflictMatch, millis, end_millis, start_or_zero}
use bracket.Conflicts.Flags.{FlagKey, short_break, Code, mark, when, for_each, for_adjacent, key_eq}
use bracket.Conflicts.Marks.{Marks, Marks-mark, Marks-when, Marks-any, Marks-any_adjacent}
use bracket.Conflicts.Sets.{Sets, Sets-mark, Sets-when, Sets-for_each, Sets-for_adjacent}
use bracket.Conflicts.Listed.{InMatches}

-- The entries of one match.
court_entry : ConflictMatch → Option ℕ → Option ℤ → List (ℕ × ConflictMatch)
court_entry m (some court) (some _) = (court, m) ∷ []
court_entry m none _ = []
court_entry m (some court) none = []

-- The matches with a court and a start time, under their courts.
pub court_entries : List ConflictMatch → List (ℕ × ConflictMatch)
unfolding court_entry
court_entries = flat_map λ m. court_entry m m.court_id m.start_time

-- Earlier first, the smaller id first among matches that start together.
pub starts_before : ConflictMatch → ConflictMatch → Bool
starts_before a b =
    if ltb_ℤ (start_or_zero a) (start_or_zero b)
    then true
    else if ltb_ℤ (start_or_zero b) (start_or_zero a)
    then false
    else ltb a.id b.id

-- `(start - previousEnd) / 60_000 < defaultBreakMinutes`, multiplied out.
pub is_short_break : ℕ → ConflictMatch → ConflictMatch → Bool
unfolding ◌-ℤ◌
is_short_break default_break_minutes previous m =
    ltb_ℤ (start_or_zero m -ℤ end_millis previous) (millis default_break_minutes)

unfoldable pub set_short_break_conflicts : List ConflictMatch → ℕ → Code
unfolding court_entries starts_before is_short_break sort get put
set_short_break_conflicts matches default_break_minutes =
    for_each (values (push_all [] (court_entries matches))) λ court_matches.
      for_adjacent (sort starts_before court_matches)
        λ previous m. when (is_short_break default_break_minutes previous m) (mark short_break m.id)

-- In some court's order, match j stands directly behind a match that it follows too soon.
abbrev pub short_break_flags : List ConflictMatch → ℕ → ℕ → FlagKey → Bool
short_break_flags matches default_break_minutes j k =
    any
      (λ court_matches.
        any_adjacent
          (λ previous m.
            is_short_break default_break_minutes previous m && (m.id == j && key_eq short_break k))
          (sort starts_before court_matches))
      (values (push_all [] (court_entries matches)))

-- In some court's order, a match follows the one before it too soon.
abbrev pub break_too_short : List ConflictMatch → ℕ → Bool
break_too_short matches default_break_minutes =
    any (λ ms. any_adjacent (is_short_break default_break_minutes) (sort starts_before ms))
      (values (push_all [] (court_entries matches)))

pub short_break_flags-Marks :
    (matches : List ConflictMatch) (default_break_minutes : ℕ)
    → Marks
        (short_break_flags matches default_break_minutes)
        (break_too_short matches default_break_minutes)
short_break_flags-Marks matches default_break_minutes =
    Marks-any _ _
      (λ ms.
        Marks-any_adjacent _ (is_short_break default_break_minutes)
          (λ p m.
            Marks-when (is_short_break default_break_minutes p m) _ (Marks-mark m.id short_break))
          (sort starts_before ms))
      (values (push_all [] (court_entries matches)))

module _ (K : ℕ → Bool) where
  court_entry-listed :
      (m : ConflictMatch) (court : Option ℕ) (start : Option ℤ)
      → K m.id ≡ true
      → All (λ e. K e.1.id ≡ true) (court_entry m court start)
  unfolding court_entry
  court_entry-listed m (some court) (some _) h = (h, tt)
  court_entry-listed m none _ h = tt
  court_entry-listed m (some court) none h = tt

  court_entries-listed :
      (matches : List ConflictMatch)
      → InMatches K matches
      → All (λ e. K e.1.id ≡ true) (court_entries matches)
  unfolding court_entries
  court_entries-listed matches h =
      All-flat_map_intro (λ (e : ℕ × ConflictMatch). K e.1.id ≡ true)
        (λ m. court_entry m m.court_id m.start_time) matches
        (All-map (λ m. court_entry-listed m m.court_id m.start_time) matches h)

  pub set_short_break_conflicts-Sets :
      (matches : List ConflictMatch) (default_break_minutes : ℕ)
      → InMatches K matches
      → Sets K
          (short_break_flags matches default_break_minutes)
          (set_short_break_conflicts matches default_break_minutes)
  unfolding set_short_break_conflicts
  set_short_break_conflicts-Sets matches default_break_minutes h =
      Sets-for_each _ _ (values (push_all [] (court_entries matches))) (
        All-map
          (λ court_matches t.
            Sets-for_adjacent _ _
              (λ p m _ listed. Sets-when _ _ _ λ _. Sets-mark short_break m.id listed)
              (sort starts_before court_matches)
              (sort-All starts_before (λ m. K m.id ≡ true) court_matches t))
          _
          (push_all-All (λ m. K m.id ≡ true) (court_entries matches) []
            (court_entries-listed matches h) tt))
