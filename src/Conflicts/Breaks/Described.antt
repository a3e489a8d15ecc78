-- ===== src/Conflicts/Breaks/Described.antt =====
-- conflicts.ts: the short break pass sees the courts that are described.
use bracket.Base.{
  ℕ, ◌*◌, ◌≡◌, refl, ap, ◌∙◌, Bool, true, ◌&&◌, List, [], ◌∷◌, ◌++◌, Option, none, some, arith, inl,
  inr, Bool-cases, Option-cases, ◌==◌, if◌then◌else◌, is_num, is_some, any, any_adjacent,
  any-flat_map, any_congr, filter, All, All-map,
}
use bracket.Base.Int.{ℤ, pos, ltb_ℤ, ◌+ℤ◌, ◌-ℤ◌, -ℤ_parts, +ℤ_parts}
use bracket.Base.Keyed.{holds}
use bracket.Base.Grouped.{entries_of, any-groups}
use bracket.Base.Order.{sort, sort-All}
use bracket.Base.Sorted.{filter-true}
use bracket.Conflicts.{ConflictMatch, end_millis, start_or_zero}
use bracket.Conflicts.Described.{end_from, is_on, too_close, court_too_close}
use bracket.Conflicts.Breaks.{
  court_entry, court_entries, starts_before, is_short_break, break_too_short,
}

entries_of-append :
    (c : ℕ) (es fs : List (ℕ × ConflictMatch))
    → entries_of c (es ++ fs) ≡ entries_of c es ++ entries_of c fs
entries_of-append c [] fs = refl
entries_of-append c ((k, m) ∷ es) fs = elim (Bool-cases (k == c)) [
  | inl e ↦ rw e (ap (λ l. m ∷ l) (entries_of-append c es fs))
  | inr e ↦ rw e (entries_of-append c es fs)
]

entry_on :
    (c : ℕ) (m : ConflictMatch) (ms : List ConflictMatch) (court : Option ℕ) (start : Option ℤ)
    → entries_of c (court_entry m court start) ++ ms
      ≡ (if is_num court c && is_some start then m ∷ ms else ms)
unfolding court_entry
entry_on c m ms none start = refl
entry_on c m ms (some court) none = elim (Bool-cases (court == c)) [
  | inl e ↦ rw e refl
  | inr e ↦ rw e refl
]
entry_on c m ms (some court) (some s) = elim (Bool-cases (court == c)) [
  | inl e ↦ rw e refl
  | inr e ↦ rw e refl
]

-- The entries of a court are its scheduled matches.
entries_of-court_entries :
    (c : ℕ) (ms : List ConflictMatch) → entries_of c (court_entries ms) ≡ filter (is_on c) ms
unfolding court_entries
entries_of-court_entries c [] = refl
entries_of-court_entries c (m ∷ ms) =
    entries_of-append c (court_entry m m.court_id m.start_time) (court_entries ms)
    ∙ ap (λ l. entries_of c (court_entry m m.court_id m.start_time) ++ l)
        (entries_of-court_entries c ms)
    ∙ entry_on c m (filter (is_on c) ms) m.court_id m.start_time

any-court_entry :
    (f : ℕ → Bool) (m : ConflictMatch) (court : Option ℕ) (start : Option ℤ)
    → any (λ e. f e.0) (court_entry m court start) ≡ (is_some start && holds f court)
unfolding court_entry
any-court_entry f m none none = refl
any-court_entry f m none (some s) = refl
any-court_entry f m (some court) none = refl
any-court_entry f m (some court) (some s) = ground arith

abbrev IsScheduled : ConflictMatch → Type 0
IsScheduled m = is_some m.start_time ≡ true

difference_below :
    (t e : ℤ) (minutes : ℕ) → ltb_ℤ (t -ℤ e) (pos minutes) ≡ ltb_ℤ t (e +ℤ pos minutes)
difference_below t e minutes = ground (arith, -ℤ_parts t e, +ℤ_parts e (pos minutes))

short-too_close :
    (default_break_minutes : ℕ) (p m : ConflictMatch)
    → IsScheduled p
    → IsScheduled m
    → is_short_break default_break_minutes p m ≡ too_close default_break_minutes p m
unfolding is_short_break
short-too_close default_break_minutes p m h k = elim (Option-cases p.start_time) [
  | inl e ↦ absurd (ground (arith, h, e))
  | inr (s, e) ↦ elim (Option-cases m.start_time) [
    | inl f ↦ absurd (ground (arith, k, f))
    | inr (t, f) ↦
        let ends : end_millis p ≡ end_from p s = rw (end_millis, e) refl in
        let starts : start_or_zero m ≡ t = rw (start_or_zero, f) refl in
        let below : is_short_break default_break_minutes p m
            ≡ ltb_ℤ t (end_from p s +ℤ pos (default_break_minutes * 60_000)) =
          rw (is_short_break, starts, ends)
            (difference_below t (end_from p s) (default_break_minutes * 60_000)) in
        below ∙ rw e (rw f refl)
  ]
]

adjacent-too_close :
    (default_break_minutes : ℕ) (ms : List ConflictMatch)
    → All IsScheduled ms
    → any_adjacent (is_short_break default_break_minutes) ms
      ≡ any_adjacent (too_close default_break_minutes) ms
adjacent-too_close default_break_minutes [] h = refl
adjacent-too_close default_break_minutes (x ∷ []) h = refl
adjacent-too_close default_break_minutes (x ∷ y ∷ ys) (p, (q, h)) = ground (
  arith,
  short-too_close default_break_minutes x y p q,
  adjacent-too_close default_break_minutes (y ∷ ys) (q, h),
)

pub break_too_short-described :
    (matches : List ConflictMatch) (default_break_minutes : ℕ)
    → break_too_short matches default_break_minutes ≡ court_too_close matches default_break_minutes
unfolding court_entries
break_too_short-described matches default_break_minutes =
    any-groups (λ ms. any_adjacent (is_short_break default_break_minutes) (sort starts_before ms))
      (court_entries matches)
    ∙ any_congr _ _ (λ e. on_court e.0) (court_entries matches)
    ∙ any-flat_map (λ e. described e.0) (λ m. court_entry m m.court_id m.start_time) matches
    ∙ any_congr _ _ (λ m. any-court_entry described m m.court_id m.start_time) matches
  where
    described : ℕ → Bool
    described c =
        any_adjacent (too_close default_break_minutes)
          (sort starts_before (filter (is_on c) matches))

    on_court :
        (c : ℕ)
        → any_adjacent
            (is_short_break default_break_minutes)
            (sort starts_before (entries_of c (court_entries matches)))
          ≡ described c
    on_court c =
        ap (λ ms. any_adjacent (is_short_break default_break_minutes) (sort starts_before ms))
          (entries_of-court_entries c matches)
        ∙ adjacent-too_close default_break_minutes _ (
            sort-All starts_before IsScheduled _
              (All-map (λ m on. ground (arith, on)) _ (filter-true (is_on c) matches)))
