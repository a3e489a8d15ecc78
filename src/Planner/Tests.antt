-- ===== src/Planner/Tests.antt =====
-- Tests of the planner, with runs of events as a user makes them.
use bracket.Base.{ℕ, ◌≡◌, ◌≢◌, refl, ◌⊎◌, true, List, [], ◌∷◌, none, some}
use bracket.Zoom.{compact, overview, zoom_in}
use bracket.Selection.{
  GridMatchRef, swap, match_selected, idle, confirm_move, tap_match, confirm, unschedule_selected,
  edit_mode, move_mode, selection_reducer,
}
use bracket.Planner.{
  PlannerState, initial_planner_state, FocusTarget, PlannerEvent, select, set_mode, zoom_out_at,
  tap_overview, resize, planner_reducer, run,
}
use bracket.Planner.Modes.{Inv, OnlyResizes, run-init-Inv, edit_mode_safe}
use bracket.Planner.Effects.{focus_zooms, overview_buttons}

abbrev first_match : GridMatchRef
first_match = record {
  match_id = 1;
  court_id = 10;
  position = 0;
  played = some true;
  locked = none;
}

abbrev second_match : GridMatchRef
second_match = record { match_id = 2; court_id = 10; position = 1; played = none; locked = none }

-- Select a played match, tap another one, and zoom out before confirming.
abbrev events : List (PlannerEvent ℕ)
events = select (tap_match first_match) ∷ select (tap_match second_match) ∷ zoom_out_at none ∷ []

abbrev waiting : PlannerState
waiting = record {
  zoom = overview;
  mode = move_mode;
  selection = confirm_move (match_selected first_match) (swap 1 2);
}

run_test : run (initial_planner_state compact) events ≡ waiting
unfolding run planner_reducer initial_planner_state selection_reducer
run_test = refl

run-init-Inv_example : Inv (run (initial_planner_state compact) events)
run-init-Inv_example = run-init-Inv compact events

abbrev to_edit : List (PlannerEvent ℕ)
to_edit = select (tap_match first_match) ∷ set_mode edit_mode ∷ []

edit_mode_safe_example :
    OnlyResizes {F = ℕ}
      (resize 1 30)
      (planner_reducer {F = ℕ} (run (initial_planner_state compact) to_edit) (resize 1 30)).actions
unfolding run planner_reducer initial_planner_state selection_reducer
edit_mode_safe_example = edit_mode_safe compact to_edit (resize 1 30) refl

abbrev target : FocusTarget ℕ
target = record { court_id = 10; fraction = 40 }

focus_zooms_example :
    ((planner_reducer {F = ℕ} waiting (tap_overview 10 40)).state.zoom ≢ overview)
    × ((planner_reducer {F = ℕ} waiting (tap_overview 10 40)).actions ≡ [])
    × ((planner_reducer {F = ℕ} waiting (tap_overview 10 40)).state.mode ≡ move_mode)
    × ((planner_reducer {F = ℕ} waiting (tap_overview 10 40)).state.selection ≡ waiting.selection)
unfolding planner_reducer zoom_in
focus_zooms_example = focus_zooms waiting (tap_overview 10 40) target refl

abbrev confirm_event : PlannerEvent ℕ
confirm_event = select confirm

overview_buttons_example :
    ((confirm_event ≡ select confirm) ⊎ (confirm_event ≡ select unschedule_selected))
    × ((planner_reducer waiting confirm_event).state.selection ≡ idle)
unfolding planner_reducer selection_reducer
overview_buttons_example = overview_buttons waiting confirm_event refl refl
