-- ===== src/SchedulePage.antt =====
-- frontend/src/pages/tournaments/[id]/schedule.tsx: the page's state and its handlers. `F` is the
-- type of the scroll fractions. SWR, the cache of the schedule, is a parameter with the state `C`,
-- and so is the server, with the state `W`. A handler runs to its end before the next one starts.
pub mod Sending
pub mod Outcomes
pub mod Synced
pub mod Referees
pub mod Once
mod Tests
use bracket.Base.{
  ℕ, suc, Bool, true, false, not, List, [], ◌∷◌, Option, none, some, if◌then◌else◌, filter, ◌≡◌,
}
use mathlib.Core.Option
use bracket.Base.Int.{ℤ}
use bracket.Base.Exec.{
  Outcome, done, thrown, Exec, pure, throw, try_catch, modify, on_part, ◌>>=◌, ◌>>◌,
}
use bracket.Conflicts.{ConflictStage}
use bracket.Selection.{
  PlanningAction, reschedule, swap, unschedule, resize_break, open_details, SelectionState, idle,
  active, confirm_move, ActiveSelectionState,
}
use bracket.Planner.{PlannerState, FocusTarget, PlannerEvent, PlannerTransition, planner_reducer}
use bracket.Optimistic.{apply_planning_actions}
use bracket.Polling.{is_stale_schedule_error}
use bracket.UnscheduledTray.{
  is_tray_selected, selection_for_tray, next_tray_opened_after_planner_event,
}
use bracket.Requests.{
  Failure, is_axios_error, as_thrown, Notification, orange, translated, Request, Response, Client,
  Action, show_notification, handle_request_error,
}
use bracket.Requests.Matches.{
  swap_matches, reschedule_match, unschedule_match, resize_match_break, auto_assign_referees,
}

pub record Page (F W C : Type 0) : Type 0 where
  pub planner : PlannerState
  -- The target of the scrolling and its nonce.
  pub focus : Option (FocusTarget F × ℕ)
  pub details_match_id : Option ℕ
  pub tray_opened : Bool
  pub is_optimizing : Bool
  pub cache : C
  pub client : Client W

abbrev pub PageAction : Type 0 → Type 0 → Type 0 → Type 0
PageAction F W C = Exec Failure (Page F W C) Unit

-- `swrStagesResponse.mutate`: with a request and its optimistic data, and alone.
pub record Swr (F W C : Type 0) : Type 0 where
  pub mutate_with :
      (Option (List ConflictStage) → Option (List ConflictStage))
      → PageAction F W C
      → PageAction F W C
  pub mutate : PageAction F W C

-- What SWR documents of a mutation with `optimisticData`, `populateCache: false`,
-- `revalidate: true` and the default `rollbackOnError`. `shown` is the data that the page reads, and
-- `stages_of` the schedule that a fetch from the server returns, if it succeeds.
pub record IsSwr {F W C : Type 0} (swr : Swr F W C) (stages_of : W → Option (List ConflictStage))
    (shown : C → Option (List ConflictStage)) : Type 0 where
  pub paint : (Option (List ConflictStage) → Option (List ConflictStage)) → C → C
  pub restore : C → C
  pub refetch : W → C → C
  pub mutate_with_done :
      (f : Option (List ConflictStage) → Option (List ConflictStage)) (request : PageAction F W C)
      (p p' : Page F W C)
      → request (record p { cache = paint f p.cache }) ≡ (done tt, p')
      → swr.mutate_with f request p
        ≡ (done tt, record p' { cache = refetch p'.client.server p'.cache })
  pub mutate_with_thrown :
      (f : Option (List ConflictStage) → Option (List ConflictStage)) (request : PageAction F W C)
      (p p' : Page F W C) (e : Failure)
      → request (record p { cache = paint f p.cache }) ≡ (thrown e, p')
      → swr.mutate_with f request p ≡ (thrown e, record p' { cache = restore p'.cache })
  pub mutate_done :
      (p : Page F W C)
      → swr.mutate p ≡ (done tt, record p { cache = refetch p.client.server p.cache })
  pub shown_restore :
      (f : Option (List ConflictStage) → Option (List ConflictStage)) (c : C)
      → shown (restore (paint f c)) ≡ shown c
  pub shown_refetch :
      (w : W) (c : C) (stages : List ConflictStage)
      → stages_of w ≡ some stages
      → shown (refetch w c) ≡ some stages

unfoldable pub active_selection_from : SelectionState → Option ActiveSelectionState
active_selection_from idle = none
active_selection_from (active s) = some s
active_selection_from (confirm_move previous action) = some previous

-- The notification of a schedule that another device changed.
abbrev pub schedule_changed : Notification
schedule_changed = record {
  color = orange;
  title = translated "schedule_changed_title";
  message = translated "schedule_changed_message";
}

abbrev pub for_backend : PlanningAction → Bool
for_backend (open_details id) = false
for_backend _ = true

abbrev pub nonempty : List PlanningAction → Bool
nonempty [] = false
nonempty (a ∷ actions) = true

-- The match whose details the actions open, the last one of them.
pub details_after : Option ℕ → List PlanningAction → Option ℕ
details_after details [] = details
details_after details (open_details id ∷ actions) = details_after (some id) actions
details_after details (_ ∷ actions) = details_after details actions

module _ {F : Type 0} where
  next_nonce : Option (FocusTarget F × ℕ) → ℕ
  next_nonce none = 1
  next_nonce (some (target, nonce)) = suc nonce

  -- `setFocus`, unless there is no target.
  pub focus_after : Option (FocusTarget F × ℕ) → Option (FocusTarget F) → Option (FocusTarget F × ℕ)
  unfolding next_nonce
  focus_after previous none = previous
  focus_after previous (some target) = some (target, next_nonce previous)

module _ {F W C : Type 0} where
  unfoldable pub on_client : Action W Unit → PageAction F W C
  unfolding on_part
  on_client = on_part (λ p. p.client) (λ c p. record p { client = c })

  -- What the handler does before its first request.
  unfoldable pub begin_event : PlannerTransition F → Page F W C → Page F W C
  unfolding focus_after details_after
  begin_event t page = record page {
    planner = t.state;
    focus = focus_after page.focus t.focus;
    details_match_id = details_after page.details_match_id t.actions;
  }

  unfoldable pub update_tray_opened :
      SelectionState → PlannerEvent F → PlannerTransition F → Page F W C → Page F W C
  unfolding next_tray_opened_after_planner_event
  update_tray_opened previous event t page = record page {
    tray_opened =
        next_tray_opened_after_planner_event page.tray_opened previous t.state.selection event
          t.actions;
  }

  unfoldable pub clear_selection : Page F W C → Page F W C
  clear_selection page = record page { planner = record page.planner { selection = idle } }

module _ {W : Type 0} (answer : Request → W → Outcome Failure Response × W)
    (tournament_id : ℕ) where
  perform_action : PlanningAction → Action W Unit
  unfolding swap_matches reschedule_match unschedule_match resize_match_break pure ◌>>=◌
  perform_action (swap match1_id match2_id) = do
    swap_matches answer tournament_id match1_id match2_id
    pure tt
  perform_action (reschedule match_id body) = do
    reschedule_match answer tournament_id match_id body
    pure tt
  perform_action (unschedule match_id) = do unschedule_match answer tournament_id match_id; pure tt
  perform_action (resize_break match_id new_duration_minutes) = do
    resize_match_break answer tournament_id match_id new_duration_minutes
    pure tt
  perform_action (open_details match_id) = pure tt

  unfoldable pub perform_actions : List PlanningAction → Action W Unit
  unfolding perform_action ◌>>=◌
  perform_actions [] = pure tt
  perform_actions (action ∷ actions) = do perform_action action; perform_actions actions

-- The optimistic data.
pub predicted :
    ℤ → ℕ → List PlanningAction → Option (List ConflictStage) → Option (List ConflictStage)
unfolding apply_planning_actions
predicted start_time margin_minutes actions =
    Option.map (λ stages. apply_planning_actions start_time margin_minutes stages actions)

module _ {F W C : Type 0} where
  pub report : Failure → PageAction F W C
  unfolding is_stale_schedule_error as_thrown is_axios_error on_client handle_request_error
      show_notification throw
  report e =
      if is_stale_schedule_error (as_thrown e)
      then on_client (show_notification schedule_changed)
      else if is_axios_error e
      then on_client (handle_request_error e)
      else throw e

  unfoldable pub recover : Swr F W C → Failure → PageAction F W C
  unfolding report modify clear_selection ◌>>=◌
  recover swr e = do modify clear_selection; swr.mutate; report e

module _ {F W C : Type 0} (answer : Request → W → Outcome Failure Response × W) (swr : Swr F W C)
    (tournament_id : ℕ) (start_time : ℤ) (margin_minutes : ℕ) where
  unfoldable pub send_actions : List PlanningAction → PageAction F W C
  unfolding recover perform_actions predicted on_client try_catch
  send_actions actions =
      try_catch
        (swr.mutate_with (predicted start_time margin_minutes actions)
          (on_client (perform_actions answer tournament_id actions)))
        (recover swr)

  pub finish_event : SelectionState → PlannerEvent F → PlannerTransition F → PageAction F W C
  unfolding send_actions update_tray_opened modify ◌>>=◌
  finish_event previous event t =
      let backend_actions = filter for_backend t.actions in
      if not (nonempty backend_actions)
      then modify (update_tray_opened previous event t)
      else send_actions backend_actions
        >> (if is_tray_selected previous
            then modify (update_tray_opened previous event t)
            else pure tt)

  unfoldable pub handle_planner_event : PlannerEvent F → PageAction F W C
  unfolding finish_event planner_reducer selection_for_tray begin_event
  handle_planner_event event page =
      let t = planner_reducer page.planner event in
      finish_event (selection_for_tray page.planner.selection) event t (begin_event t page)

module _ {F W C : Type 0} where
  unfoldable pub set_optimizing : Bool → Page F W C → Page F W C
  set_optimizing b page = record page { is_optimizing = b }

module _ {F W C : Type 0} (answer : Request → W → Outcome Failure Response × W) (swr : Swr F W C)
    (tournament_id : ℕ) where
  -- `try { … } finally { setIsOptimizing(false) }`
  unfoldable pub handle_assign_referees : PageAction F W C
  unfolding auto_assign_referees on_client set_optimizing modify try_catch throw ◌>>=◌
  handle_assign_referees = do
    modify (set_optimizing true)
    try_catch (on_client (auto_assign_referees answer tournament_id none >> pure tt) >> swr.mutate)
        (λ e. modify (set_optimizing false) >> throw e)
    modify (set_optimizing false)
