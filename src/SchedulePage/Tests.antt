-- ===== src/SchedulePage/Tests.antt =====
-- Tests of the schedule page, with a small cache and two servers in place of SWR and the backend.
use bracket.Base.{
  ℕ, ◌≤◌, length, ◌≡◌, refl, true, false, if◌then◌else◌, List, [], ◌∷◌, Option, none, some, filter,
}
use bracket.Base.Int.{pos}
use bracket.Base.Exec.{Outcome, done, thrown}
use bracket.Zoom.{compact}
use bracket.Conflicts.{ConflictStage}
use bracket.Selection.{
  idle, active, tray_match_selected, tap_insertion_line, move_mode, selection_reducer,
}
use bracket.Planner.{PlannerState, PlannerEvent, select, planner_reducer}
use bracket.Polling.{is_stale_schedule_error}
use bracket.UnscheduledTray.{
  is_tray_selected, selection_for_tray, next_tray_opened_after_planner_event,
}
use bracket.Requests.Errors.{returns}
use bracket.Requests.{
  Failure, axios_error, plain, json, Request, Response, Client, perform_mutation, as_thrown,
  is_axios_error, handle_request_error, red, literal,
}
use bracket.Requests.Matches.{auto_assign_referees, reschedule_match}
use bracket.SchedulePage.{
  Page, Swr, IsSwr, for_backend, nonempty, schedule_changed, perform_actions, handle_planner_event,
  handle_assign_referees,
}
use bracket.SchedulePage.Outcomes.{rejected_event, answered_event}
use bracket.SchedulePage.Synced.{IsSynced, event, here, next, Reach-IsSynced}
use bracket.SchedulePage.Once.{written, handle_writes_once}
use bracket.SchedulePage.Referees.{assign_referees_ends}

abbrev Schedule : Type 0
Schedule = List ConflictStage

-- What is shown, and what it was before the optimistic data.
record Cached : Type 0 where
  now : Option Schedule
  before : Option Schedule

module _ {F : Type 0} where
  abbrev settle :
      Outcome Failure Unit × Page F Schedule Cached → Outcome Failure Unit × Page F Schedule Cached
  settle (done tt, p) = (
    done tt,
    record p { cache = record { now = some p.client.server; before = some p.client.server } },
  )
  settle (thrown e, p) =
      (thrown e, record p { cache = record { now = p.cache.before; before = p.cache.before } })

abbrev swr : Swr ℕ Schedule Cached
swr = record {
  mutate_with = λ f request p.
      settle (request (record p { cache = record { now = f p.cache.now; before = p.cache.now } }));
  mutate = λ p. (
    done tt,
    record p { cache = record { now = some p.client.server; before = some p.client.server } },
  );
}

abbrev laws : IsSwr swr some (λ c. c.now)
laws = record {
  paint = λ f c. record { now = f c.now; before = c.now };
  restore = λ c. record { now = c.before; before = c.before };
  refetch = λ w c. record { now = some w; before = some w };
  mutate_with_done = λ f request p p' h. rw h refl;
  mutate_with_thrown = λ f request p p' e h. rw h refl;
  mutate_done = λ p. refl;
  shown_restore = λ f c. refl;
  shown_refetch = λ w c stages h. h;
}

abbrev one_stage : Schedule
one_stage = record { stage_items = [] } ∷ []

abbrev stale : Failure
stale = axios_error (record {
  network = false;
  response = some (record { status = 409; body = json (some (plain "moved")) });
})

-- A server that another device has written to, and one that accepts.
abbrev rejecting : Request → Schedule → Outcome Failure Response × Schedule
rejecting request w = (thrown stale, w)

abbrev accepting : Request → Schedule → Outcome Failure Response × Schedule
accepting request w = (done (record { tournament_id = none }), one_stage)

abbrev holding : PlannerState
holding = record { zoom = compact; mode = move_mode; selection = active (tray_match_selected 7) }

abbrev client : Client Schedule
client = record { server = []; notifications = []; invalidated = [] }

abbrev page : Page ℕ Schedule Cached
page = record {
  planner = holding;
  focus = none;
  details_match_id = none;
  tray_opened = false;
  is_optimizing = false;
  cache = record { now = some []; before = some [] };
  client = client;
}

abbrev tap : PlannerEvent ℕ
tap = select (tap_insertion_line 11 2)

rejects :
    perform_actions rejecting 1 (filter for_backend (planner_reducer holding tap).actions) client
    ≡ (thrown stale, client)
unfolding perform_actions planner_reducer selection_reducer reschedule_match perform_mutation
rejects = refl

abbrev after_write : Client Schedule
after_write = record { server = one_stage; notifications = []; invalidated = 1 ∷ [] }

accepts :
    perform_actions accepting 1 (filter for_backend (planner_reducer holding tap).actions) client
    ≡ (done tt, after_write)
unfolding perform_actions planner_reducer selection_reducer reschedule_match perform_mutation
accepts = refl

rejected_test :
    (handle_planner_event rejecting swr 1 (pos 0) 5 tap page).1.client.notifications
    ≡ schedule_changed ∷ []
unfolding handle_planner_event perform_actions planner_reducer selection_reducer reschedule_match
    perform_mutation
rejected_test = refl

rejected_event_example :
    let t = planner_reducer holding tap in
    let (r, page') = handle_planner_event rejecting swr 1 (pos 0) 5 tap page in
    (page'.planner ≡ record t.state { selection = idle })
    × (page'.cache.now ≡ some [])
    × (r ≡ (
        if is_stale_schedule_error (as_thrown stale)
        then done tt
        else if is_axios_error stale
        then (handle_request_error stale client).0
        else thrown stale))
    × (page'.client ≡ (
        if is_stale_schedule_error (as_thrown stale)
        then record client { notifications = schedule_changed ∷ client.notifications }
        else if is_axios_error stale
        then (handle_request_error stale client).1
        else client))
rejected_event_example =
    rejected_event rejecting swr 1 (pos 0) 5 laws tap page client stale [] rejects refl

sends : nonempty (filter for_backend (planner_reducer holding tap).actions) ≡ true
unfolding planner_reducer selection_reducer
sends = refl

answered_event_example :
    let t = planner_reducer holding tap in
    let previous = selection_for_tray holding.selection in
    let (r, page') = handle_planner_event accepting swr 1 (pos 0) 5 tap page in
    (r ≡ done tt)
    × (page'.planner ≡ t.state)
    × (page'.cache.now ≡ some one_stage)
    × (page'.client ≡ after_write)
    × (page'.tray_opened ≡ (
        if is_tray_selected previous
        then next_tray_opened_after_planner_event false previous t.state.selection tap t.actions
        else false))
answered_event_example =
    answered_event accepting swr 1 (pos 0) 5 laws tap page after_write one_stage sends accepts refl

Reach-IsSynced_example :
    IsSynced some (λ c. c.now) (handle_planner_event rejecting swr 1 (pos 0) 5 tap page).1
Reach-IsSynced_example =
    Reach-IsSynced rejecting swr laws 1 (pos 0) 5 (λ w. (w, refl)) {p = page} refl
      (next here (event tap page))

assigns : auto_assign_referees rejecting 1 none client ≡ (
  done none,
  record client {
    notifications =
        record { color = red; title = literal "An error occurred"; message = literal "moved" } ∷ [];
  },
)
unfolding auto_assign_referees perform_mutation
assigns = refl

assign_referees_ends_example :
    let (r', page') = handle_assign_referees rejecting swr 1 page in
    (page'.is_optimizing ≡ false)
    × (page'.client ≡ (auto_assign_referees rejecting 1 none client).1)
    × (returns r' ≡ returns (auto_assign_referees rejecting 1 none client).0)
    × (page'.cache.now
        ≡ (if returns (auto_assign_referees rejecting 1 none client).0 then some [] else some []))
assign_referees_ends_example =
    assign_referees_ends rejecting swr laws 1 page (auto_assign_referees rejecting 1 none client).0
      (auto_assign_referees rejecting 1 none client).1 refl [] (rw assigns refl)

handle_writes_once_example :
    let actions = (planner_reducer holding tap).actions in
    let (_, page') = handle_planner_event rejecting swr 1 (pos 0) 5 tap page in
    (length (filter for_backend actions) ≤ 1)
    × (page'.client.server ≡ written rejecting 1 (filter for_backend actions) [])
handle_writes_once_example = handle_writes_once rejecting laws 1 (pos 0) 5 tap page
