-- ===== src/SchedulePage/Once.antt =====
-- schedule.tsx: how often the handler of a planner event writes to the server.
use bracket.Base.{
  ℕ, ◌≤◌, ◌≡◌, refl, ◌∙◌, true, false, ◌&&◌, List, [], ◌∷◌, Option, arith, filter, length, inl, inr,
  Bool-cases,
}
use bracket.Base.Int.{ℤ}
use bracket.Base.Exec.{Outcome, done, thrown}
use bracket.Conflicts.{ConflictStage}
use bracket.Selection.{PlanningAction, reschedule, swap, unschedule, resize_break, open_details}
use bracket.Planner.{PlannerEvent, planner_reducer}
use bracket.Planner.Effects.{actions_le_one}
use bracket.UnscheduledTray.{is_tray_selected, selection_for_tray}
use bracket.Requests.{
  Failure, Request, mutation, fetch, post, word, number, no_body, swap_body, reschedule_body,
  resize_break_body, Response, Client, perform_mutation,
}
use bracket.Requests.Errors.{returns, handle_request_error-server}
use bracket.Requests.Matches.{swap_matches, reschedule_match, unschedule_match, resize_match_break}
use bracket.SchedulePage.{
  Page, Swr, IsSwr, for_backend, nonempty, begin_event, finish_event, handle_planner_event,
  perform_action, perform_actions, update_tray_opened,
}
use bracket.SchedulePage.Sending.{
  told, tell_tray_keeps, report-told, answered, rejected, send_answered, send_rejected, finish_sent,
}

-- The request that an action stands for.
abbrev pub request_for : ℕ → PlanningAction → Request
request_for t (swap i j) =
    mutation post (word "tournaments" ∷ number t ∷ word "matches" ∷ word "swap" ∷ [])
      (swap_body i j)
request_for t (reschedule i body) =
    mutation post
      (word "tournaments" ∷ number t ∷ word "matches" ∷ number i ∷ word "reschedule" ∷ [])
      (reschedule_body body)
request_for t (unschedule i) =
    mutation post
      (word "tournaments" ∷ number t ∷ word "matches" ∷ number i ∷ word "unschedule" ∷ []) no_body
request_for t (resize_break i d) =
    mutation post
      (word "tournaments" ∷ number t ∷ word "matches" ∷ number i ∷ word "resize_break" ∷ [])
      (resize_break_body d)
request_for t (open_details i) = fetch []

module _ {W : Type 0} (answer : Request → W → Outcome Failure Response × W)
    (tournament_id : ℕ) where
  -- The server after the request of the first action.
  abbrev pub written : List PlanningAction → W → W
  written [] w = w
  written (a ∷ actions) w = (answer (request_for tournament_id a) w).1

  performs_once :
      (actions : List PlanningAction) (c : Client W)
      → length actions ≤ 1
      → (perform_actions answer tournament_id (filter for_backend actions) c).1.server
        ≡ written (filter for_backend actions) c.server
  unfolding perform_actions perform_action swap_matches reschedule_match unschedule_match
      resize_match_break perform_mutation
  performs_once [] c le = refl
  performs_once (swap i j ∷ []) c le = ground arith
  performs_once (reschedule i body ∷ []) c le = ground arith
  performs_once (unschedule i ∷ []) c le = ground arith
  performs_once (resize_break i d ∷ []) c le = ground arith
  performs_once (open_details i ∷ []) c le = refl
  performs_once (a ∷ a' ∷ actions) c le = absurd (omega (arith, le))

told-server : {W : Type 0} (e : Failure) (c : Client W) → (told e c).1.server ≡ c.server
told-server e c = ground (arith, handle_request_error-server e c)

module _ {F W C : Type 0} (answer : Request → W → Outcome Failure Response × W) {swr : Swr F W C}
    {stages_of : W → Option (List ConflictStage)} {shown : C → Option (List ConflictStage)}
    (laws : IsSwr swr stages_of shown) (tournament_id : ℕ) (start_time : ℤ)
    (margin_minutes : ℕ) where
  -- The handler leaves the server as its requests do.
  sent_server :
      (event : PlannerEvent F) (page : Page F W C) (r : Outcome Failure Unit) (c : Client W)
      → nonempty (filter for_backend (planner_reducer page.planner event).actions) ≡ true
      → perform_actions answer tournament_id
          (filter for_backend (planner_reducer page.planner event).actions)
          page.client
        ≡ (r, c)
      → (handle_planner_event answer swr tournament_id start_time margin_minutes event
          page).1.client.server
        ≡ c.server
  unfolding handle_planner_event
  sent_server event page (done tt) c n h =
      let t = planner_reducer page.planner event in
      let previous = selection_for_tray page.planner.selection in
      let actions = filter for_backend t.actions in
      let sent =
        send_answered answer laws tournament_id start_time margin_minutes actions
          (begin_event t page) c h in
      let ended =
        finish_sent answer laws tournament_id start_time margin_minutes previous event t
          (begin_event t page) _ _ n sent in
      let after = answered laws start_time margin_minutes actions (begin_event t page) c in
      let (_, _, same) = tell_tray_keeps previous event t (is_tray_selected previous) after in
      rw (ended, same) refl
  sent_server event page (thrown e) c n h =
      let t = planner_reducer page.planner event in
      let previous = selection_for_tray page.planner.selection in
      let actions = filter for_backend t.actions in
      let sent =
        send_rejected answer laws tournament_id start_time margin_minutes actions
          (begin_event t page) c e h in
      let ended =
        finish_sent answer laws tournament_id start_time margin_minutes previous event t
          (begin_event t page) _ _ n (sent ∙ report-told e _) in
      let (_, _, same) =
        tell_tray_keeps previous event t (returns (told e c).0 && is_tray_selected previous)
          (record (rejected laws start_time margin_minutes actions (begin_event t page) c) {
            client = (told e c).1;
          }) in
      rw (ended, same) (told-server e c)

  unsent_server :
      (event : PlannerEvent F) (page : Page F W C)
      → nonempty (filter for_backend (planner_reducer page.planner event).actions) ≡ false
      → (handle_planner_event answer swr tournament_id start_time margin_minutes event
          page).1.client.server
        ≡ written answer tournament_id
            (filter for_backend (planner_reducer page.planner event).actions)
            page.client.server
  unfolding handle_planner_event finish_event begin_event update_tray_opened
  unsent_server event page n =
      rw n (nothing (filter for_backend (planner_reducer page.planner event).actions) n)
    where
      nothing :
          (actions : List PlanningAction)
          → nonempty actions ≡ false
          → page.client.server ≡ written answer tournament_id actions page.client.server
      nothing [] n = refl
      nothing (a ∷ actions) n = ground (arith, n)

  -- The handler of an event writes to the server at most once: the server is left as it was, if the
  -- event emits nothing for it, and else as after the one request that the emitted action stands
  -- for, whether it is accepted or rejected.
  pub handle_writes_once :
      (event : PlannerEvent F) (page : Page F W C)
      → let actions = (planner_reducer page.planner event).actions in
        let (_, page') =
          handle_planner_event answer swr tournament_id start_time margin_minutes event page in
        (length (filter for_backend actions) ≤ 1)
        × (page'.client.server
            ≡ written answer tournament_id (filter for_backend actions) page.client.server)
  handle_writes_once event page = (
    few (planner_reducer page.planner event).actions (actions_le_one page.planner event),
    elim (Bool-cases (nonempty (filter for_backend (planner_reducer page.planner event).actions))) [
      | inl n ↦
          sent_server event page _ _ n refl
          ∙ performs_once answer tournament_id (planner_reducer page.planner event).actions
              page.client (actions_le_one page.planner event)
      | inr n ↦ unsent_server event page n
    ],
  )
    where
      few :
          (actions : List PlanningAction)
          → length actions ≤ 1
          → length (filter for_backend actions) ≤ 1
      few [] le = omega arith
      few (a ∷ []) le = ground arith
      few (a ∷ a' ∷ actions) le = absurd (omega (arith, le))
