-- ===== src/UnscheduledTray.antt =====
-- frontend/src/logic/planning/unscheduled_tray.ts: the groups of the matches in the tray, and when
-- the tray is open. A text is the list of its UTF-16 code units.
pub mod Groups
pub mod Opened
mod Tests
use bracket.Base.{
  ℕ, Bool, true, false, List, [], ◌∷◌, ◌++◌, Option, none, some, ltb, ◌==◌, if◌then◌else◌, opt_eq,
  fold, map,
}
use bracket.Base.Store.{get, put_all}
use bracket.Base.Order.{sort}
use bracket.Selection.{
  PlanningAction, SelectionState, SelectionEvent, idle, active, confirm_move, match_selected,
  tray_match_selected, cancel,
}
use bracket.Planner.{PlannerEvent, select}

-- The matches are only passed on, apart from their ids.
pub record TrayMatch : Type 0 where
  pub id : ℕ

pub record LevelResponse : Type 0 where
  pub id : ℕ
  pub name : List ℕ
  pub position : ℕ

-- The stage of an entry of the lookup.
pub record EntryStage : Type 0 where
  pub id : ℕ
  pub name : List ℕ
  pub level_id : Option ℕ

pub record TrayStageGroup : Type 0 where
  pub id : ℕ
  pub name : List ℕ
  pub matches : List TrayMatch

pub record TrayLevelGroup : Type 0 where
  pub id : Option ℕ
  pub name : List ℕ
  pub stages : List TrayStageGroup

pub data TrayMatchGroups : Type 0 where
  flat : List TrayMatch → TrayMatchGroups
  grouped : List TrayLevelGroup → TrayMatchGroups

-- The group of a stage, which the source finds by the key of level and stage, gets the match.
pub add_to_stage : EntryStage → TrayMatch → List TrayStageGroup → List TrayStageGroup
add_to_stage stage m [] = record { id = stage.id; name = stage.name; matches = m ∷ [] } ∷ []
add_to_stage stage m (g ∷ gs) =
    if g.id == stage.id
    then record g { matches = g.matches ++ m ∷ [] } ∷ gs
    else g ∷ add_to_stage stage m gs

level_order : List LevelResponse → List (ℕ × LevelResponse)
level_order levels = put_all [] (map (λ l. (l.id, l)) levels)

-- `levelId == null ? null : levelOrder.get(levelId)`
pub find_level : List LevelResponse → Option ℕ → Option LevelResponse
unfolding level_order get
find_level levels none = none
find_level levels (some id) = get id (level_order levels)

level_name : Option LevelResponse → List ℕ
level_name none = []
level_name (some level) = level.name

pub add_to_level :
    List LevelResponse → EntryStage → TrayMatch → List TrayLevelGroup → List TrayLevelGroup
unfolding add_to_stage find_level level_name
add_to_level levels stage m [] =
    record {
      id = stage.level_id;
      name = level_name (find_level levels stage.level_id);
      stages = add_to_stage stage m [];
    }
    ∷ []
add_to_level levels stage m (g ∷ gs) =
    if opt_eq g.id stage.level_id
    then record g { stages = add_to_stage stage m g.stages } ∷ gs
    else g ∷ add_to_level levels stage m gs

pub add_match :
    List LevelResponse
    → List (ℕ × EntryStage)
    → List TrayLevelGroup
    → TrayMatch
    → List TrayLevelGroup
unfolding add_to_level get
add_match levels lookup groups m = elim (get m.id lookup) [
  | none ↦ groups
  | some stage ↦ add_to_level levels stage m groups
]

-- Groups without a known level are last.
pub level_before : List LevelResponse → TrayLevelGroup → TrayLevelGroup → Bool
unfolding find_level
level_before levels a b = elim (find_level levels a.id) [
  | none ↦ false
  | some l ↦ elim (find_level levels b.id) [ none ↦ true | some k ↦ ltb l.position k.position ]
]

pub group_unscheduled_matches_for_tray :
    List TrayMatch → List (ℕ × EntryStage) → List LevelResponse → TrayMatchGroups
unfolding add_match level_before sort
group_unscheduled_matches_for_tray matches lookup [] = flat matches
group_unscheduled_matches_for_tray matches lookup (l ∷ ls) =
    grouped (sort (level_before (l ∷ ls)) (fold (add_match (l ∷ ls) lookup) [] matches))

unfoldable pub is_tray_selected : SelectionState → Bool
is_tray_selected idle = false
is_tray_selected (active (match_selected m)) = false
is_tray_selected (active (tray_match_selected id)) = true
is_tray_selected (confirm_move previous action) = false

some_actions : List PlanningAction → Bool
some_actions [] = false
some_actions (a ∷ actions) = true

-- schedule.tsx: `previousSelectionForTray`, a confirmation counts as the selection that it keeps.
unfoldable pub selection_for_tray : SelectionState → SelectionState
selection_for_tray idle = idle
selection_for_tray (active s) = active s
selection_for_tray (confirm_move previous action) = active previous

module _ {F : Type 0} where
  is_cancel : PlannerEvent F → Bool
  is_cancel (select cancel) = true
  is_cancel _ = false

  unfoldable pub next_tray_opened_after_planner_event :
      Bool → SelectionState → SelectionState → PlannerEvent F → List PlanningAction → Bool
  unfolding is_tray_selected is_cancel some_actions
  next_tray_opened_after_planner_event opened previous_selection next_selection event actions =
      if is_tray_selected next_selection
      then false
      else if is_tray_selected previous_selection
      then (if is_cancel event then true else if some_actions actions then true else opened)
      else opened
