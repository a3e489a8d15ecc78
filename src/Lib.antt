-- ===== src/Lib.antt =====
-- Verification library for the planner of the tournament frontend.
--
-- The planner lets an organizer put the matches of a tournament on courts. Its logic is free of
-- rendering, in frontend/src/logic/planning: a state machine turns taps into planning actions
-- (selection.ts, with move_confirmation.ts and zoom.ts), the actions are applied to the cached
-- schedule at once (optimistic.ts), an engine finds the conflicts of a schedule (conflicts.ts), a
-- preview simulates every tap and looks for new conflicts (conflict_preview.ts), the layout places
-- matches, breaks and insertion lines on the grid (layout.ts), the matches without a place wait in a
-- tray (unscheduled_tray.ts), highlight.ts finds the matches of a team, and a policy says when the
-- schedule is fetched again (polling.ts). The schedule page (frontend/src/pages/tournaments/[id]/
-- schedule.tsx) puts these together: it runs the state machine on taps and zoom gestures
-- (frontend/src/components/scheduling), shows the predicted schedule, sends the actions to the server
-- (frontend/src/services/adapter.tsx and match.tsx), and falls back on the server's schedule when a
-- request is rejected. While matches are played, frontend/src/logic/score_tracking.ts and
-- side_switch.ts say what the scorer sees.
--
-- Base: shared names, lists, integers, a JavaScript `Map` as an association list in insertion order,
-- a stable sort, and asynchronous functions as actions on a state that return or throw (Exec).
-- Zoom: zoom.ts.
-- Selection: the data of selection.ts and move_confirmation.ts, `place`, `confirmOrPerform` and
-- `selectionReducer`; Selection/Confirm proves what the confirmation does, Selection/Placing where an
-- insertion line puts a match.
-- Planner: `plannerReducer`, with runs of events; Planner/Modes has the invariant of reachable
-- states, Planner/Effects what one event can do.
-- Polling: polling.ts, with its laws over the planner.
-- Conflicts: conflicts.ts, a module for each pass: Teams, Referees, Slots, Precedence, Breaks, Rounds;
-- Flags has the map of flags and the writes to it, Sets the composition of passes, Compute the whole
-- engine and Compute/Exact its correctness. Conflicts/Described describes the conflicts by the matches,
-- their times and their slots, a module of each pass shows that the pass sees what is described (Times,
-- Sources, Noted, Dependents and Feeders for Precedence, else Described), and Compute/Clean that the
-- schedules without these conflicts get no flag.
-- Optimistic: `applyPlanningActions`. The match objects are a list, and a reference to one is its
-- place in the list, so that aliasing is explicit; Refill puts the objects back into the stages,
-- Frame says what no action changes, Packing what an insertion does to a court.
-- Optimistic/CourtOrder has the abstract view of a schedule, the order of the matches on each court,
-- Optimistic/CourtOrder/Refines what a placement does to it, and Optimistic/CourtOrder/Tap what a tap
-- on an insertion line does to it, through the planner's action.
-- Requests: `handleRequestError` and `performMutation`, over a server that is a parameter: it answers
-- a request or rejects it, and has a state of its own. Requests/Matches has the functions of match.tsx,
-- Requests/Errors and Requests/Tokens what they leave behind.
-- SchedulePage: `handlePlannerEvent`, `performAction` and `handleAssignReferees`. SWR, the cache of
-- the schedule, is a parameter, and the record IsSwr states what its documentation says of `mutate`;
-- the tests fill it. SchedulePage/Sending has the steps of the handler, Outcomes how it ends, Once what
-- it writes, Synced what the page shows, Referees the assignment of referees. A handler runs to its
-- end before the next event; two events that overlap are not modelled.
-- Lookups: frontend/src/services/lookups.tsx; Numbers has the numbers of matches and rounds, Violations
-- the matches that are placed before an earlier stage.
-- Gestures: frontend/src/components/scheduling/use_pinch_zoom.ts, over measured distances.
-- PlannerAnchor: frontend/src/components/scheduling/planner_anchor.ts, over measured rectangles.
-- Layout: `computeScheduleLayout`, `computeInsertionLines` and `computeBreaks`, with laws on the
-- locked blocks (Blocks), the insertion lines (Lines), the breaks (Pauses) and the height and ticks
-- (Ruler).
-- ConflictPreview: `computeConflictPreview` over Conflicts, Layout, Selection and Optimistic.
-- Highlight: `matchInvolvesHighlight`.
-- UnscheduledTray: unscheduled_tray.ts; Groups has the grouping of the matches in the tray, Opened when
-- the planner opens it.
-- TemplateWizard: frontend/src/utils/template_wizard_preview.ts, with the numbers of teams and matches
-- that a template leads to in Counts.
-- ScoreTracking, SideSwitch: score_tracking.ts with `getSetsWon` of frontend/src/utils/match_sets.ts,
-- and side_switch.ts.
-- Builder: `autoAssignTeams` of frontend/src/components/builder/builder.tsx, with what it sends in
-- Assigned, and in Choices the choices for the inputs of a stage, with the names that
-- frontend/src/components/utils/stage_item_input.tsx gives them, and their keys (Keys). The requests
-- go out together and the two caches are fetched again behind them, which is not modelled.
--
-- Numbers: ids, positions, scores and durations are natural numbers. A start time, an ISO text in
-- the source, is the instant that it denotes, an integer of milliseconds. Minutes are multiplied out
-- to milliseconds, so that the fractions of the source do not occur; the arithmetic is exact, which
-- that of the source is for whole minutes. A missing entry that the source dereferences is an error
-- value.
--
-- Fuel: the loops run over lists, or count their rounds down in the template preview, except for
-- two. The ticks of the ruler are computed with fuel for one round more than there are intervals,
-- which the loop needs to see its end. The recursion of `matchInvolvesHighlight` through the
-- matches that feed a match has a bounded depth, since the source itself does not return on a
-- cycle; fuel beyond the rank of the match is enough.
--
-- Not modelled: rendering, the backend, the generated client, the read hooks of adapter.tsx, the other
-- services, and the texts and colours that are shown, apart from the notifications of errors.
pub mod Base
pub mod Builder
pub mod ConflictPreview
pub mod Conflicts
pub mod Gestures
pub mod Highlight
pub mod Layout
pub mod Lookups
pub mod Optimistic
pub mod Planner
pub mod PlannerAnchor
pub mod Polling
pub mod Requests
pub mod SchedulePage
pub mod ScoreTracking
pub mod Selection
pub mod SideSwitch
pub mod TemplateWizard
pub mod UnscheduledTray
pub mod Zoom
