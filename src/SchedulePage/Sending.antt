-- ===== src/SchedulePage/Sending.antt =====
-- schedule.tsx: the steps of the handler of a planner event, each with its result.
use bracket.Base.{
  ℕ, ◌≡◌, refl, ap, Bool, true, false, ◌&&◌, List, [], ◌∷◌, Option, arith, filter, if◌then◌else◌,
}
use bracket.Base.Int.{ℤ}
use bracket.Base.Exec.{Outcome, done, thrown}
use bracket.Conflicts.{ConflictStage}
use bracket.Selection.{PlanningAction, SelectionState, idle}
use bracket.Planner.{PlannerEvent, PlannerTransition}
use bracket.UnscheduledTray.{is_tray_selected, next_tray_opened_after_planner_event}
use bracket.Requests.Errors.{returns}
use bracket.Requests.{
  Failure, is_axios_error, as_thrown, Request, Response, Client, Action, handle_request_error,
}
use bracket.Polling.{is_stale_schedule_error}
use bracket.SchedulePage.{
  Page, Swr, IsSwr, for_backend, nonempty, schedule_changed, on_client, perform_actions, predicted,
  report, recover, send_actions, finish_event, update_tray_opened,
}

pub rejected_nonempty :
    {W : Type 0} (answer : Request → W → Outcome Failure Response × W) (tournament_id : ℕ)
    (actions : List PlanningAction) (c c' : Client W) (e : Failure)
    → perform_actions answer tournament_id actions c ≡ (thrown e, c')
    → nonempty actions ≡ true
unfolding perform_actions
rejected_nonempty answer tournament_id [] c c' e h = ground (arith, h)
rejected_nonempty answer tournament_id (a ∷ actions) c c' e h = refl

on_client_outcome :
    {F W C : Type 0} (m : Action W Unit) (page : Page F W C) (r : Outcome Failure Unit)
    (c : Client W)
    → m page.client ≡ (r, c)
    → on_client m page ≡ (r, record page { client = c })
unfolding on_client
on_client_outcome m page r c h = ap (λ x. (x.0, record page { client = x.1 })) h

-- How a failure is told to the user: an independent description of `report`.
abbrev pub told : {W : Type 0} → Failure → Action W Unit
told e c =
    if is_stale_schedule_error (as_thrown e)
    then (done tt, record c { notifications = schedule_changed ∷ c.notifications })
    else if is_axios_error e
    then handle_request_error e c
    else (thrown e, c)

module _ {F W C : Type 0} (previous : SelectionState) (event : PlannerEvent F)
    (t : PlannerTransition F) where
  -- The page after the tray was told of the event, if it was.
  pub tell_tray : Bool → Page F W C → Page F W C
  tell_tray told_of page = if told_of then update_tray_opened previous event t page else page

  pub tell_tray_keeps :
      (told_of : Bool) (page : Page F W C)
      → ((tell_tray told_of page).planner ≡ page.planner)
        × ((tell_tray told_of page).cache ≡ page.cache)
        × ((tell_tray told_of page).client ≡ page.client)
  unfolding tell_tray update_tray_opened
  tell_tray_keeps true page = (refl, refl, refl)
  tell_tray_keeps false page = (refl, refl, refl)

  pub tell_tray_opened :
      (told_of : Bool) (page : Page F W C)
      → (tell_tray told_of page).tray_opened ≡ (
          if told_of
          then next_tray_opened_after_planner_event page.tray_opened previous t.state.selection
              event t.actions
          else page.tray_opened)
  unfolding tell_tray update_tray_opened
  tell_tray_opened true page = refl
  tell_tray_opened false page = refl

pub report-told :
    {F W C : Type 0} (e : Failure) (p : Page F W C)
    → report e p ≡ ((told e p.client).0, record p { client = (told e p.client).1 })
unfolding report on_client
report-told e p = ground arith

module _ {F W C : Type 0} {swr : Swr F W C} {stages_of : W → Option (List ConflictStage)}
    {shown : C → Option (List ConflictStage)} (laws : IsSwr swr stages_of shown) (start_time : ℤ)
    (margin_minutes : ℕ) where
  -- The page while the requests are pending.
  abbrev pub painted : List PlanningAction → Page F W C → Page F W C
  painted actions page = record page {
    cache = laws.paint (predicted start_time margin_minutes actions) page.cache;
  }

  -- The page after requests that were answered, apart from the tray.
  abbrev pub answered : List PlanningAction → Page F W C → Client W → Page F W C
  answered actions page c = record page {
    client = c;
    cache =
        laws.refetch c.server (laws.paint (predicted start_time margin_minutes actions) page.cache);
  }

  -- The page after a request that was rejected, before the error is reported.
  abbrev pub rejected : List PlanningAction → Page F W C → Client W → Page F W C
  rejected actions page c = record page {
    planner = record page.planner { selection = idle };
    client = c;
    cache =
        laws.refetch c.server
          (laws.restore (laws.paint (predicted start_time margin_minutes actions) page.cache));
  }

module _ {F W C : Type 0} (answer : Request → W → Outcome Failure Response × W) {swr : Swr F W C}
    {stages_of : W → Option (List ConflictStage)} {shown : C → Option (List ConflictStage)}
    (laws : IsSwr swr stages_of shown) (tournament_id : ℕ) (start_time : ℤ)
    (margin_minutes : ℕ) where
  pub send_answered :
      (actions : List PlanningAction) (page : Page F W C) (c : Client W)
      → perform_actions answer tournament_id actions page.client ≡ (done tt, c)
      → send_actions answer swr tournament_id start_time margin_minutes actions page
        ≡ (done tt, answered laws start_time margin_minutes actions page c)
  unfolding send_actions
  send_answered actions page c h =
      let sending = perform_actions answer tournament_id actions in
      let sent =
        on_client_outcome sending (painted laws start_time margin_minutes actions page) (done tt) c
          h in
      let step =
        laws.mutate_with_done (predicted start_time margin_minutes actions) (on_client sending) page
          (record (painted laws start_time margin_minutes actions page) { client = c }) sent in
      rw step refl

  pub send_rejected :
      (actions : List PlanningAction) (page : Page F W C) (c : Client W) (e : Failure)
      → perform_actions answer tournament_id actions page.client ≡ (thrown e, c)
      → send_actions answer swr tournament_id start_time margin_minutes actions page
        ≡ report e (rejected laws start_time margin_minutes actions page c)
  unfolding send_actions recover
  send_rejected actions page c e h =
      let sending = perform_actions answer tournament_id actions in
      let sent =
        on_client_outcome sending (painted laws start_time margin_minutes actions page) (thrown e) c
          h in
      let step =
        laws.mutate_with_thrown (predicted start_time margin_minutes actions) (on_client sending)
          page (record (painted laws start_time margin_minutes actions page) { client = c }) e
          sent in
      rw step (rw (laws.mutate_done _) refl)

  pub finish_sent :
      (previous : SelectionState) (event : PlannerEvent F) (t : PlannerTransition F)
      (page p : Page F W C) (r : Outcome Failure Unit)
      → nonempty (filter for_backend t.actions) ≡ true
      → send_actions answer swr tournament_id start_time margin_minutes
          (filter for_backend t.actions)
          page
        ≡ (r, p)
      → finish_event answer swr tournament_id start_time margin_minutes previous event t page
        ≡ (r, tell_tray previous event t (returns r && is_tray_selected previous) p)
  unfolding finish_event tell_tray
  finish_sent previous event t page p (done a) n h = rw (n, h) (ground arith)
  finish_sent previous event t page p (thrown e) n h = rw (n, h) (ground arith)
