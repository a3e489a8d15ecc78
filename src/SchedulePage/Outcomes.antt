-- ===== src/SchedulePage/Outcomes.antt =====
-- schedule.tsx: how the handler of a planner event ends, for each answer of the server.
use bracket.Base.{
  ℕ, ◌≡◌, refl, ◌∙◌, true, ◌&&◌, List, ◌∷◌, Option, some, arith, filter, if◌then◌else◌,
}
use bracket.Base.Int.{ℤ}
use bracket.Base.Exec.{Outcome, done, thrown}
use bracket.Conflicts.{ConflictStage}
use bracket.Selection.{idle}
use bracket.Planner.{PlannerEvent, planner_reducer}
use bracket.UnscheduledTray.{
  is_tray_selected, selection_for_tray, next_tray_opened_after_planner_event,
}
use bracket.Requests.Errors.{returns}
use bracket.Requests.{
  Failure, is_axios_error, as_thrown, Request, Response, Client, handle_request_error,
}
use bracket.Polling.{is_stale_schedule_error}
use bracket.SchedulePage.{
  Page, Swr, IsSwr, for_backend, nonempty, schedule_changed, begin_event, perform_actions,
  handle_planner_event,
}
use bracket.SchedulePage.Sending.{
  rejected_nonempty, told, tell_tray_keeps, tell_tray_opened, report-told, answered, rejected,
  send_answered, send_rejected, finish_sent,
}

module _ {F W C : Type 0} (answer : Request → W → Outcome Failure Response × W) (swr : Swr F W C)
    (tournament_id : ℕ) (start_time : ℤ) (margin_minutes : ℕ)
    {stages_of : W → Option (List ConflictStage)} {shown : C → Option (List ConflictStage)}
    (laws : IsSwr swr stages_of shown) where
  -- The server rejects a request of an event. The selection is cleared, while the zoom level and the
  -- mode are those that the event led to, and the page shows the schedule that the server then has.
  -- A stale schedule is announced and the handler returns; another answer of the server is reported
  -- as every failed request; an error of another class is thrown on and nothing is shown.
  pub rejected_event :
      (event : PlannerEvent F) (page : Page F W C) (c : Client W) (e : Failure)
      (stages : List ConflictStage)
      → perform_actions answer tournament_id
          (filter for_backend (planner_reducer page.planner event).actions)
          page.client
        ≡ (thrown e, c)
      → stages_of c.server ≡ some stages
      → let t = planner_reducer page.planner event in
        let (r, page') =
          handle_planner_event answer swr tournament_id start_time margin_minutes event page in
        (page'.planner ≡ record t.state { selection = idle })
        × (shown page'.cache ≡ some stages)
        × (r ≡ (
            if is_stale_schedule_error (as_thrown e)
            then done tt
            else if is_axios_error e
            then (handle_request_error e c).0
            else thrown e))
        × (page'.client ≡ (
            if is_stale_schedule_error (as_thrown e)
            then record c { notifications = schedule_changed ∷ c.notifications }
            else if is_axios_error e
            then (handle_request_error e c).1
            else c))
  unfolding handle_planner_event
  rejected_event event page c e stages h k =
      let t = planner_reducer page.planner event in
      let actions = filter for_backend t.actions in
      let previous = selection_for_tray page.planner.selection in
      let sent =
        send_rejected answer laws tournament_id start_time margin_minutes actions
          (begin_event t page) c e h in
      let ended =
        finish_sent answer laws tournament_id start_time margin_minutes previous event t
          (begin_event t page) _ _ (rejected_nonempty answer tournament_id _ _ _ _ h)
          (sent ∙ report-told e _) in
      let (same_planner, same_cache, same_client) =
        tell_tray_keeps previous event t (returns (told e c).0 && is_tray_selected previous)
          (record (rejected laws start_time margin_minutes actions (begin_event t page) c) {
            client = (told e c).1;
          }) in
      let fetched : shown _ ≡ some stages = laws.shown_refetch c.server _ stages k in
      rw (ended, same_planner, same_cache, same_client) (refl, fetched, ground arith, ground arith)

  -- The server answers every request of an event that sends some. The handler returns without a
  -- notification of its own, the planner is in the state that the event led to, the page shows the
  -- schedule that the server then has, and the tray follows if a tray match was selected.
  pub answered_event :
      (event : PlannerEvent F) (page : Page F W C) (c : Client W) (stages : List ConflictStage)
      → nonempty (filter for_backend (planner_reducer page.planner event).actions) ≡ true
      → perform_actions answer tournament_id
          (filter for_backend (planner_reducer page.planner event).actions)
          page.client
        ≡ (done tt, c)
      → stages_of c.server ≡ some stages
      → let t = planner_reducer page.planner event in
        let previous = selection_for_tray page.planner.selection in
        let (r, page') =
          handle_planner_event answer swr tournament_id start_time margin_minutes event page in
        (r ≡ done tt)
        × (page'.planner ≡ t.state)
        × (shown page'.cache ≡ some stages)
        × (page'.client ≡ c)
        × (page'.tray_opened ≡ (
            if is_tray_selected previous
            then next_tray_opened_after_planner_event page.tray_opened previous t.state.selection
                event t.actions
            else page.tray_opened))
  unfolding handle_planner_event
  answered_event event page c stages n h k =
      let t = planner_reducer page.planner event in
      let actions = filter for_backend t.actions in
      let previous = selection_for_tray page.planner.selection in
      let sent =
        send_answered answer laws tournament_id start_time margin_minutes actions
          (begin_event t page) c h in
      let ended =
        finish_sent answer laws tournament_id start_time margin_minutes previous event t
          (begin_event t page) _ _ n sent in
      let after = answered laws start_time margin_minutes actions (begin_event t page) c in
      let (same_planner, same_cache, same_client) =
        tell_tray_keeps previous event t (is_tray_selected previous) after in
      let fetched : shown _ ≡ some stages = laws.shown_refetch c.server _ stages k in
      let tray = tell_tray_opened previous event t (is_tray_selected previous) after in
      rw (ended, same_planner, same_cache, same_client) (refl, refl, fetched, refl, tray)
