-- ===== src/UnscheduledTray/Groups.antt =====
-- unscheduled_tray.ts: the groups hold every match of a known stage exactly once, in its place.
use bracket.Base.{
  ℕ, ◌+◌, ◌≡◌, refl, ◌∙◌, Bool, false, ◌&&◌, List, [], ◌∷◌, ◌++◌, Option, none, some, ◌==◌,
  if◌then◌else◌, opt_eq, fold, arith, Option-cases, inl, inr,
}
use bracket.Base.Store.{get}
use bracket.Base.Order.{sort, insert}
use bracket.UnscheduledTray.{
  TrayMatch, LevelResponse, EntryStage, TrayStageGroup, TrayLevelGroup, TrayMatchGroups, flat,
  grouped, add_to_stage, add_to_level, add_match, level_before, group_unscheduled_matches_for_tray,
}

-- How many of the matches satisfy a test.
abbrev pub count : (TrayMatch → Bool) → List TrayMatch → ℕ
count p [] = 0
count p (m ∷ ms) = (if p m then 1 else 0) + count p ms

-- How many of the matches in the groups of a stage satisfy the test.
abbrev pub count_stages_at : (TrayMatch → Bool) → ℕ → List TrayStageGroup → ℕ
count_stages_at p stage_id [] = 0
count_stages_at p stage_id (g ∷ gs) =
    (if g.id == stage_id then count p g.matches else 0) + count_stages_at p stage_id gs

-- How many of the matches in the groups of a level and a stage satisfy the test.
abbrev pub count_at : (TrayMatch → Bool) → Option ℕ → ℕ → List TrayLevelGroup → ℕ
count_at p level_id stage_id [] = 0
count_at p level_id stage_id (g ∷ gs) =
    (if opt_eq g.id level_id then count_stages_at p stage_id g.stages else 0)
    + count_at p level_id stage_id gs

-- Does the match belong to the level and the stage?
abbrev pub belongs : List (ℕ × EntryStage) → Option ℕ → ℕ → TrayMatch → Bool
unfolding get
belongs lookup level_id stage_id m = elim (get m.id lookup) [
  | none ↦ false
  | some stage ↦ opt_eq stage.level_id level_id && stage.id == stage_id
]

module _ (p : TrayMatch → Bool) (level_id : Option ℕ) (stage_id : ℕ) where
  count-append :
      (ms : List TrayMatch) (m : TrayMatch)
      → count p (ms ++ m ∷ []) ≡ count p ms + (if p m then 1 else 0)
  count-append [] m = omega arith
  count-append (x ∷ xs) m = omega (arith, count-append xs m)

  count-add_to_stage :
      (stage : EntryStage) (m : TrayMatch) (gs : List TrayStageGroup)
      → count_stages_at p stage_id (add_to_stage stage m gs)
        ≡ count_stages_at p stage_id gs + (if stage.id == stage_id && p m then 1 else 0)
  unfolding add_to_stage
  count-add_to_stage stage m [] = ground arith
  count-add_to_stage stage m (g ∷ gs) =
      ground (arith, count-append g.matches m, count-add_to_stage stage m gs)

  count-add_to_level :
      (levels : List LevelResponse) (stage : EntryStage) (m : TrayMatch) (gs : List TrayLevelGroup)
      → count_at p level_id stage_id (add_to_level levels stage m gs)
        ≡ count_at p level_id stage_id gs
          + (if opt_eq stage.level_id level_id && (stage.id == stage_id && p m) then 1 else 0)
  unfolding add_to_level
  count-add_to_level levels stage m [] = ground (arith, count-add_to_stage stage m [])
  count-add_to_level levels stage m (g ∷ gs) =
      ground (arith, count-add_to_stage stage m g.stages, count-add_to_level levels stage m gs)

  count-add_match :
      (levels : List LevelResponse) (lookup : List (ℕ × EntryStage)) (gs : List TrayLevelGroup)
      (m : TrayMatch)
      → count_at p level_id stage_id (add_match levels lookup gs m)
        ≡ count_at p level_id stage_id gs
          + (if belongs lookup level_id stage_id m && p m then 1 else 0)
  unfolding add_match belongs
  count-add_match levels lookup gs m = elim (Option-cases (get m.id lookup)) [
    | inl e ↦ rw (e, add_match, belongs) (omega arith)
    | inr (stage, e) ↦
        rw (e, add_match, belongs) (ground (arith, count-add_to_level levels stage m gs))
  ]

  count-fold :
      (levels : List LevelResponse) (lookup : List (ℕ × EntryStage)) (ms : List TrayMatch)
      (gs : List TrayLevelGroup)
      → count_at p level_id stage_id (fold (add_match levels lookup) gs ms)
        ≡ count_at p level_id stage_id gs
          + count (λ m. belongs lookup level_id stage_id m && p m) ms
  count-fold levels lookup [] gs = omega arith
  count-fold levels lookup (m ∷ ms) gs = omega (
    arith,
    count-fold levels lookup ms (add_match levels lookup gs m),
    count-add_match levels lookup gs m,
  )

  module _ (before : TrayLevelGroup → TrayLevelGroup → Bool) where
    count-insert :
        (g : TrayLevelGroup) (gs : List TrayLevelGroup)
        → count_at p level_id stage_id (insert before g gs) ≡ count_at p level_id stage_id (g ∷ gs)
    unfolding insert
    count-insert g [] = refl
    count-insert g (k ∷ gs) = ground (arith, count-insert g gs)

    count-sort :
        (gs : List TrayLevelGroup)
        → count_at p level_id stage_id (sort before gs) ≡ count_at p level_id stage_id gs
    unfolding sort
    count-sort [] = refl
    count-sort (g ∷ gs) = omega (arith, count-insert g (sort before gs), count-sort gs)

zero_add : (n : ℕ) → 0 + n ≡ n
zero_add n = omega arith

-- The groups of a tray, none for a flat one.
abbrev pub groups_of : TrayMatchGroups → List TrayLevelGroup
groups_of (flat matches) = []
groups_of (grouped groups) = groups

-- With a level, the matches of a tray are grouped: for every level, or no level, and every stage,
-- the group holds exactly the matches whose entry in the lookup says so, each one as often as it is
-- in the tray.
pub group_unscheduled_matches_count :
    (matches : List TrayMatch) (lookup : List (ℕ × EntryStage)) (level : LevelResponse)
    (levels : List LevelResponse) (p : TrayMatch → Bool) (level_id : Option ℕ) (stage_id : ℕ)
    → count_at p level_id stage_id
        (groups_of (group_unscheduled_matches_for_tray matches lookup (level ∷ levels)))
      ≡ count (λ m. belongs lookup level_id stage_id m && p m) matches
unfolding group_unscheduled_matches_for_tray
group_unscheduled_matches_count matches lookup level levels p level_id stage_id =
    count-sort p level_id stage_id (level_before (level ∷ levels)) _
    ∙ count-fold p level_id stage_id (level ∷ levels) lookup matches []
    ∙ zero_add _
