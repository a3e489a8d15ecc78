-- ===== src/UnscheduledTray/Tests.antt =====
-- Tests of the tray, after frontend/src/logic/planning/unscheduled_tray.test.ts.
use bracket.Base.{ℕ, ◌≡◌, ◌≢◌, refl, true, false, ◌&&◌, List, [], ◌∷◌, Option, some, arith, map}
use bracket.Base.Order.{sort}
use bracket.Base.Store.{get, put}
use bracket.Zoom.{compact}
use bracket.Selection.{
  active, tray_match_selected, tap_insertion_line, move_mode, selection_reducer,
}
use bracket.Planner.{PlannerState, select, planner_reducer}
use bracket.UnscheduledTray.{
  TrayMatch, LevelResponse, EntryStage, group_unscheduled_matches_for_tray,
  next_tray_opened_after_planner_event, selection_for_tray,
}
use bracket.UnscheduledTray.Groups.{
  count, count_at, belongs, groups_of, group_unscheduled_matches_count,
}
use bracket.UnscheduledTray.Opened.{tray_reopens}

abbrev match_of : ℕ → TrayMatch
match_of id = record { id = id }

abbrev level : ℕ → ℕ → LevelResponse
level id position = record { id = id; name = []; position = position }

abbrev lookup : List (ℕ × EntryStage)
lookup =
    (1, record { id = 10; name = []; level_id = some 1 })
    ∷ (2, record { id = 20; name = []; level_id = some 2 })
    ∷ (3, record { id = 10; name = []; level_id = some 1 })
    ∷ []

abbrev waiting : List TrayMatch
waiting = match_of 1 ∷ match_of 2 ∷ match_of 3 ∷ match_of 4 ∷ []

groups_test :
    map {B = Option ℕ × List (List ℕ)}
      (λ g. (g.id, map (λ s. map (λ m. m.id) s.matches) g.stages))
      (groups_of (group_unscheduled_matches_for_tray waiting lookup (level 1 5 ∷ level 2 3 ∷ [])))
    ≡ (some 2, (2 ∷ []) ∷ []) ∷ (some 1, (1 ∷ 3 ∷ []) ∷ []) ∷ []
unfolding group_unscheduled_matches_for_tray sort get put
groups_test = refl

group_unscheduled_matches_count_example :
    count_at
      (λ m. true)
      (some 1)
      10
      (groups_of (group_unscheduled_matches_for_tray waiting lookup (level 1 5 ∷ level 2 3 ∷ [])))
    ≡ count (λ m. belongs lookup (some 1) 10 m && true) waiting
group_unscheduled_matches_count_example =
    group_unscheduled_matches_count waiting lookup (level 1 5) (level 2 3 ∷ []) (λ m. true) (some 1)
      10

abbrev choosing : PlannerState
choosing = record { zoom = compact; mode = move_mode; selection = active (tray_match_selected 3) }

choosing-emits : (planner_reducer {F = ℕ} choosing (select (tap_insertion_line 1 0))).actions ≢ []
unfolding planner_reducer selection_reducer
choosing-emits e = ground (arith, e)

tray_reopens_example :
    next_tray_opened_after_planner_event {F = ℕ} false
      (selection_for_tray choosing.selection)
      (planner_reducer {F = ℕ} choosing (select (tap_insertion_line 1 0))).state.selection
      (select (tap_insertion_line 1 0))
      (planner_reducer {F = ℕ} choosing (select (tap_insertion_line 1 0))).actions
    ≡ true
unfolding selection_for_tray
tray_reopens_example = tray_reopens ℕ choosing (tap_insertion_line 1 0) false 3 refl choosing-emits
