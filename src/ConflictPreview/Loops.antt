-- ===== src/ConflictPreview/Loops.antt =====
-- conflict_preview.ts: what the loops over the courts, lines and blocks add to the preview.
pub mod Adds
use bracket.Base.{
  ℕ, suc, ◌≡◌, refl, sym, ap, ◌∙◌, Bool, true, false, ◌&&◌, ◌||◌, List, [], ◌∷◌, none, ◌==◌,
  if◌then◌else◌, any, any-append, arith, Bool-cases, inl, inr,
}
use bracket.Conflicts.Flags.{Result, ok}
use bracket.Layout.{CourtTimeline, InsertionLine, MatchBlock, compute_insertion_lines}
use bracket.Selection.{
  PlanningAction, SelectionState, tap_insertion_line, tap_match, selection_reducer, move_mode,
}
use bracket.ConflictPreview.{
  ConflictPreview, has_line, has_target, add_line, add_target, transition_actions, mark_lines,
  mark_targets, mark_courts,
}

has_line-add_line :
    (court_id index c i : ℕ) (preview : ConflictPreview)
    → has_line (add_line court_id index preview) c i
      ≡ (has_line preview c i || (court_id == c && index == i))
unfolding add_line
has_line-add_line court_id index c i preview = elim (Bool-cases (has_line preview court_id index)) [
  | inl there ↦ rw (there) (known (court_id == c && index == i) refl there)
  | inr absent ↦ rw (absent) (
      ground (
        arith,
        any-append (λ line. line.0 == c && line.1 == i) preview.insertion_lines
            ((court_id, index) ∷ []),
      ))
]
  where
    known :
        (b : Bool)
        → (court_id == c && index == i) ≡ b
        → has_line preview court_id index ≡ true
        → has_line preview c i ≡ (has_line preview c i || b)
    known true e there =
        let same_court : court_id ≡ c = ground (arith, e) in
        let same_index : index ≡ i = ground (arith, e) in
        let same =
          ap (λ x. has_line preview x index) same_court
          ∙ ap (λ y. has_line preview c y) same_index in
        ground (arith, there, same)
    known false e there = ground arith

has_target-add_target :
    (match_id id : ℕ) (preview : ConflictPreview)
    → has_target (add_target match_id preview) id ≡ (has_target preview id || match_id == id)
unfolding add_target
has_target-add_target match_id id preview = elim (Bool-cases (has_target preview match_id)) [
  | inl there ↦ rw (there) (known (match_id == id) refl there)
  | inr absent ↦
      rw (absent)
        (ground (arith, any-append (λ target. target == id) preview.swap_targets (match_id ∷ [])))
]
  where
    known :
        (b : Bool)
        → (match_id == id) ≡ b
        → has_target preview match_id ≡ true
        → has_target preview id ≡ (has_target preview id || b)
    known true e there =
        let same_id : match_id ≡ id = ground (arith, e) in
        let same = ap (has_target preview) same_id in ground (arith, there, same)
    known false e there = ground arith

has_target-add_line :
    (court_id index id : ℕ) (preview : ConflictPreview)
    → has_target (add_line court_id index preview) id ≡ has_target preview id
unfolding add_line
has_target-add_line court_id index id preview =
    elim (Bool-cases (has_line preview court_id index)) [ inl e ↦ rw e | inr e ↦ rw e ]

has_line-add_target :
    (match_id c i : ℕ) (preview : ConflictPreview)
    → has_line (add_target match_id preview) c i ≡ has_line preview c i
unfolding add_target
has_line-add_target match_id c i preview = elim (Bool-cases (has_target preview match_id)) [
  | inl e ↦ rw e
  | inr e ↦ rw e
]

or_false : (p : Bool) → p ≡ (p || false)
or_false p = ground arith

no_line : (p c : Bool) → p ≡ (p || c && false)
no_line p c = ground arith

-- What one round of the loops adds.
has_line_after :
    (b : Bool) (court_id index c i : ℕ) (preview : ConflictPreview)
    → has_line (if b then add_line court_id index preview else preview) c i
      ≡ (has_line preview c i || (court_id == c && index == i) && b)
has_line_after true court_id index c i preview =
    has_line-add_line court_id index c i preview
    ∙ ap (λ x. has_line preview c i || x) (and_true (court_id == c && index == i))
  where
    and_true : (x : Bool) → x ≡ (x && true)
    and_true x = ground arith
has_line_after false court_id index c i preview =
    or_false (has_line preview c i)
    ∙ ap (λ x. has_line preview c i || x) (and_false (court_id == c && index == i))
  where
    and_false : (x : Bool) → false ≡ (x && false)
    and_false x = ground arith

has_target_after :
    (b : Bool) (match_id id : ℕ) (preview : ConflictPreview)
    → has_target (if b then add_target match_id preview else preview) id
      ≡ (has_target preview id || match_id == id && b)
has_target_after true match_id id preview =
    ground (arith, has_target-add_target match_id id preview)
has_target_after false match_id id preview = ground arith

keeps_targets :
    (b : Bool) (court_id index id : ℕ) (preview : ConflictPreview)
    → has_target (if b then add_line court_id index preview else preview) id ≡ has_target preview id
keeps_targets true court_id index id preview = has_target-add_line court_id index id preview
keeps_targets false court_id index id preview = refl

keeps_lines :
    (b : Bool) (match_id c i : ℕ) (preview : ConflictPreview)
    → has_line (if b then add_target match_id preview else preview) c i ≡ has_line preview c i
keeps_lines true match_id c i preview = has_line-add_target match_id c i preview
keeps_lines false match_id c i preview = refl

collect :
    (a p c i b r : Bool) → p ≡ (a || (c && i) && b) → (p || c && r) ≡ (a || c && (i && b || r))
collect a p c i b r h = ground (arith, h)

collect_or : (a p b r : Bool) → p ≡ (a || b) → (p || r) ≡ (a || (b || r))
collect_or a p b r h = ground (arith, h)
