-- ===== src/SchedulePage/Synced.antt =====
-- schedule.tsx: the schedule on the page and the schedule of the server.
use bracket.Base.{
  ℕ, ◌≡◌, refl, sym, ◌∙◌, Bool, true, false, if◌then◌else◌, List, ◌∷◌, Option, some, filter,
  Bool-cases, inl, inr,
}
use bracket.Base.Int.{ℤ}
use bracket.Base.Exec.{Outcome, done, thrown}
use bracket.Conflicts.{ConflictStage}
use bracket.Polling.{is_stale_schedule_error}
use bracket.Planner.{PlannerEvent, planner_reducer}
use bracket.Requests.{
  Failure, Request, handle_request_error, is_axios_error, as_thrown, Response, Client,
}
use bracket.Requests.Errors.{handle_request_error-server}
use bracket.SchedulePage.{
  Page, Swr, IsSwr, for_backend, nonempty, begin_event, finish_event, handle_planner_event,
  perform_actions, update_tray_opened, schedule_changed,
}
use bracket.SchedulePage.Outcomes.{rejected_event, answered_event}

-- The page shows the schedule that a fetch from the server would return.
abbrev pub IsSynced :
    {F W C : Type 0}
    → (W → Option (List ConflictStage))
    → (C → Option (List ConflictStage))
    → Page F W C
    → Type 0
IsSynced stages_of shown page = shown page.cache ≡ stages_of page.client.server

told_server :
    {W : Type 0} (stale failed : Bool) (e : Failure) (c : Client W)
    → (if stale
        then record c { notifications = schedule_changed ∷ c.notifications }
        else if failed
        then (handle_request_error e c).1
        else c).server
      ≡ c.server
told_server true failed e c = refl
told_server false true e c = handle_request_error-server e c
told_server false false e c = refl

module _ {F W C : Type 0} (answer : Request → W → Outcome Failure Response × W) (swr : Swr F W C)
    {stages_of : W → Option (List ConflictStage)} {shown : C → Option (List ConflictStage)}
    (laws : IsSwr swr stages_of shown) (tournament_id : ℕ) (start_time : ℤ) (margin_minutes : ℕ)
    (reachable : (w : W) → (stages : List ConflictStage) × (stages_of w ≡ some stages)) where
  unsent_IsSynced :
      (event : PlannerEvent F) (page : Page F W C)
      → nonempty (filter for_backend (planner_reducer page.planner event).actions) ≡ false
      → IsSynced stages_of shown page
      → IsSynced stages_of shown
          (handle_planner_event answer swr tournament_id start_time margin_minutes event page).1
  unfolding handle_planner_event finish_event begin_event update_tray_opened
  unsent_IsSynced event page n h = rw n h

  sent_IsSynced :
      (event : PlannerEvent F) (page : Page F W C) (r : Outcome Failure Unit) (c : Client W)
      → nonempty (filter for_backend (planner_reducer page.planner event).actions) ≡ true
      → perform_actions answer tournament_id
          (filter for_backend (planner_reducer page.planner event).actions)
          page.client
        ≡ (r, c)
      → IsSynced stages_of shown
          (handle_planner_event answer swr tournament_id start_time margin_minutes event page).1
  sent_IsSynced event page (done tt) c n h =
      let (stages, fetched) = reachable c.server in
      let (_, _, shows, same, _) =
        answered_event answer swr tournament_id start_time margin_minutes laws event page c stages n
          h fetched in
      rw same (shows ∙ sym fetched)
  sent_IsSynced event page (thrown e) c n h =
      let (stages, fetched) = reachable c.server in
      let (_, shows, _, same) =
        rejected_event answer swr tournament_id start_time margin_minutes laws event page c e stages
          h fetched in
      rw (same, told_server (is_stale_schedule_error (as_thrown e)) (is_axios_error e) e c)
        (shows ∙ sym fetched)

  -- A handled event leaves a page that shows the server's schedule showing it, whether it sends
  -- requests or none, and whether they are answered or rejected.
  handle-IsSynced :
      (event : PlannerEvent F) (page : Page F W C)
      → IsSynced stages_of shown page
      → IsSynced stages_of shown
          (handle_planner_event answer swr tournament_id start_time margin_minutes event page).1
  handle-IsSynced event page h =
      elim (Bool-cases
        (nonempty (filter for_backend (planner_reducer page.planner event).actions))) [
          | inl some_sent ↦ sent_IsSynced event page _ _ some_sent refl
          | inr none_sent ↦ unsent_IsSynced event page none_sent h
        ]

  poll-IsSynced : (page : Page F W C) → IsSynced stages_of shown (swr.mutate page).1
  poll-IsSynced page =
      let (stages, fetched) = reachable page.client.server in
      rw (laws.mutate_done page)
        (laws.shown_refetch page.client.server _ stages fetched ∙ sym fetched)

module _ {F W C : Type 0} (answer : Request → W → Outcome Failure Response × W) (swr : Swr F W C)
    (tournament_id : ℕ) (start_time : ℤ) (margin_minutes : ℕ) where
  -- What can happen to a page while no other device writes: an event of its user, a poll.
  pub data Step : Page F W C → Page F W C → Type 0 where
    event :
        (e : PlannerEvent F) (p : Page F W C)
        → Step p (handle_planner_event answer swr tournament_id start_time margin_minutes e p).1
    poll : (p : Page F W C) → Step p (swr.mutate p).1

  pub data Reach (p : Page F W C) : Page F W C → Type 0 where
    here : Reach p p
    next : {q r : Page F W C} → Reach p q → Step q r → Reach p r

module _ {F W C : Type 0} (answer : Request → W → Outcome Failure Response × W) (swr : Swr F W C)
    {stages_of : W → Option (List ConflictStage)} {shown : C → Option (List ConflictStage)}
    (laws : IsSwr swr stages_of shown) (tournament_id : ℕ) (start_time : ℤ) (margin_minutes : ℕ)
    (reachable : (w : W) → (stages : List ConflictStage) × (stages_of w ≡ some stages)) where
  Step-IsSynced :
      {p q : Page F W C}
      → Step answer swr tournament_id start_time margin_minutes p q
      → IsSynced stages_of shown p
      → IsSynced stages_of shown q
  Step-IsSynced (event e p) h =
      handle-IsSynced answer swr laws tournament_id start_time margin_minutes reachable e p h
  Step-IsSynced (poll p) h =
      poll-IsSynced answer swr laws tournament_id start_time margin_minutes reachable p

  -- While the schedule can be fetched and no other device writes, a page that shows the server's
  -- schedule shows it after any events and polls, accepted and rejected placements included.
  pub Reach-IsSynced :
      {p q : Page F W C}
      → IsSynced stages_of shown p
      → Reach answer swr tournament_id start_time margin_minutes p q
      → IsSynced stages_of shown q
  Reach-IsSynced h here = h
  Reach-IsSynced h (next r s) = Step-IsSynced s (Reach-IsSynced h r)
