-- ===== src/Requests/Matches.antt =====
-- frontend/src/services/match.tsx: the requests about matches. A body that the functions only pass
-- on is its JSON text.
use Prim.Native.String.{String}
use bracket.Base.{ℕ, true, false, [], ◌∷◌, Option, none, some}
use bracket.Base.Exec.{Outcome, pure, try_catch, ◌>>=◌, ◌>>◌}
use bracket.Selection.{RescheduleBody}
use bracket.Requests.{
  Failure, word, number, Route, post, put, delete, Body, no_body, swap_body, reschedule_body,
  resize_break_body, json_body, Request, fetch, Response, Action, value, thunk, MutationOptions,
  send, handle_request_error, perform_mutation,
}

-- `tournaments/${tournament_id}/…`
abbrev of_tournament : ℕ → Route → Route
of_tournament tournament_id path = word "tournaments" ∷ number tournament_id ∷ path

abbrev of_match : ℕ → ℕ → Route → Route
of_match tournament_id match_id path =
    of_tournament tournament_id (word "matches" ∷ number match_id ∷ path)

-- `score-tracking/${score_tracking_token}/matches/${match_id}/…`
abbrev of_token : String → ℕ → Route → Route
of_token score_tracking_token match_id path =
    word "score-tracking" ∷ word score_tracking_token ∷ word "matches" ∷ number match_id ∷ path

module _ {W : Type 0} where
  abbrev pub of : ℕ → MutationOptions W
  of tournament_id = record {
    invalidate_issues = true;
    tournament_id = value (some tournament_id);
    catch_errors = true;
  }

  abbrev pub uncaught : ℕ → MutationOptions W
  uncaught tournament_id = record {
    invalidate_issues = true;
    tournament_id = value (some tournament_id);
    catch_errors = false;
  }

module _ {W : Type 0} (answer : Request → W → Outcome Failure Response × W) where
  pub create_match : ℕ → String → Action W (Option Response)
  unfolding perform_mutation
  create_match tournament_id match_ =
      perform_mutation answer post (of_tournament tournament_id (word "matches" ∷ []))
        (json_body match_) (of tournament_id)

  pub delete_match : ℕ → ℕ → Action W (Option Response)
  unfolding perform_mutation
  delete_match tournament_id match_id =
      perform_mutation answer delete (of_match tournament_id match_id []) no_body (of tournament_id)

  pub update_match : ℕ → ℕ → String → Action W (Option Response)
  unfolding perform_mutation
  update_match tournament_id match_id match_ =
      perform_mutation answer put (of_match tournament_id match_id []) (json_body match_)
        (of tournament_id)

  pub score_edit_match_set : ℕ → ℕ → ℕ → String → Action W (Option Response)
  unfolding perform_mutation
  score_edit_match_set tournament_id match_id set_id body =
      perform_mutation answer post
        (of_match tournament_id match_id (word "sets" ∷ number set_id ∷ word "score-edit" ∷ []))
        (json_body body) (of tournament_id)

  pub start_match : ℕ → ℕ → Action W (Option Response)
  unfolding perform_mutation
  start_match tournament_id match_id =
      perform_mutation answer post (of_match tournament_id match_id (word "start" ∷ [])) no_body
        (of tournament_id)

  pub end_match : ℕ → ℕ → Action W (Option Response)
  unfolding perform_mutation
  end_match tournament_id match_id =
      perform_mutation answer post (of_match tournament_id match_id (word "end" ∷ [])) no_body
        (of tournament_id)

  pub reopen_match : ℕ → ℕ → Action W (Option Response)
  unfolding perform_mutation
  reopen_match tournament_id match_id =
      perform_mutation answer post (of_match tournament_id match_id (word "reopen" ∷ [])) no_body
        (of tournament_id)

  pub reset_match : ℕ → ℕ → Action W (Option Response)
  unfolding perform_mutation
  reset_match tournament_id match_id =
      perform_mutation answer post (of_match tournament_id match_id (word "reset" ∷ [])) no_body
        (of tournament_id)

  read_tournament_id : Option Response → Option ℕ
  read_tournament_id none = none
  read_tournament_id (some r) = r.tournament_id

  found : Response → Action W (Option Response)
  unfolding pure
  found r = pure (some r)

  missing : Failure → Action W (Option Response)
  unfolding handle_request_error ◌>>=◌
  missing e = do handle_request_error e; pure none

  pub get_tournament_id_for_score_tracking_token : String → Action W (Option ℕ)
  unfolding send try_catch found missing read_tournament_id ◌>>=◌
  get_tournament_id_for_score_tracking_token score_tracking_token = do
    response ←
        try_catch
          (send answer (fetch (word "score-tracking" ∷ word score_tracking_token ∷ [])) >>= found)
          missing
    pure (read_tournament_id response)

  -- `tournament_id ?? (await getTournamentIdForScoreTrackingToken(score_tracking_token))`
  unfoldable pub known_or_looked_up : String → Option ℕ → Action W (Option ℕ)
  unfolding get_tournament_id_for_score_tracking_token pure
  known_or_looked_up score_tracking_token (some id) = pure (some id)
  known_or_looked_up score_tracking_token none =
      get_tournament_id_for_score_tracking_token score_tracking_token

  abbrev pub by_token : String → Option ℕ → MutationOptions W
  by_token score_tracking_token tournament_id = record {
    invalidate_issues = true;
    tournament_id = thunk (known_or_looked_up score_tracking_token tournament_id);
    catch_errors = true;
  }

  pub score_edit_score_tracking_match_set :
      String → Option ℕ → ℕ → ℕ → String → Action W (Option Response)
  unfolding perform_mutation known_or_looked_up
  score_edit_score_tracking_match_set score_tracking_token tournament_id match_id set_id body =
      perform_mutation answer post
        (of_token score_tracking_token match_id
          (word "sets" ∷ number set_id ∷ word "score-edit" ∷ []))
        (json_body body) (by_token score_tracking_token tournament_id)

  pub start_score_tracking_match : String → Option ℕ → ℕ → Action W (Option Response)
  unfolding perform_mutation known_or_looked_up
  start_score_tracking_match score_tracking_token tournament_id match_id =
      perform_mutation answer post (of_token score_tracking_token match_id (word "start" ∷ []))
        no_body (by_token score_tracking_token tournament_id)

  pub end_score_tracking_match : String → Option ℕ → ℕ → Action W (Option Response)
  unfolding perform_mutation known_or_looked_up
  end_score_tracking_match score_tracking_token tournament_id match_id =
      perform_mutation answer post (of_token score_tracking_token match_id (word "end" ∷ []))
        no_body (by_token score_tracking_token tournament_id)

  pub reopen_score_tracking_match : String → Option ℕ → ℕ → Action W (Option Response)
  unfolding perform_mutation known_or_looked_up
  reopen_score_tracking_match score_tracking_token tournament_id match_id =
      perform_mutation answer post (of_token score_tracking_token match_id (word "reopen" ∷ []))
        no_body (by_token score_tracking_token tournament_id)

  unfoldable pub unschedule_match : ℕ → ℕ → Action W (Option Response)
  unfolding perform_mutation
  unschedule_match tournament_id match_id =
      perform_mutation answer post (of_match tournament_id match_id (word "unschedule" ∷ []))
        no_body (uncaught tournament_id)

  unfoldable pub reschedule_match : ℕ → ℕ → RescheduleBody → Action W (Option Response)
  unfolding perform_mutation
  reschedule_match tournament_id match_id match_ =
      perform_mutation answer post (of_match tournament_id match_id (word "reschedule" ∷ []))
        (reschedule_body match_) (uncaught tournament_id)

  unfoldable pub swap_matches : ℕ → ℕ → ℕ → Action W (Option Response)
  unfolding perform_mutation
  swap_matches tournament_id match1_id match2_id =
      perform_mutation answer post (of_tournament tournament_id (word "matches" ∷ word "swap" ∷ []))
        (swap_body match1_id match2_id) (uncaught tournament_id)

  unfoldable pub resize_match_break : ℕ → ℕ → ℕ → Action W (Option Response)
  unfolding perform_mutation
  resize_match_break tournament_id match_id new_duration_minutes =
      perform_mutation answer post (of_match tournament_id match_id (word "resize_break" ∷ []))
        (resize_break_body new_duration_minutes) (uncaught tournament_id)

  -- The weights may be left out.
  optional_body : Option String → Body
  optional_body none = no_body
  optional_body (some text) = json_body text

  unfoldable pub auto_assign_referees : ℕ → Option String → Action W (Option Response)
  unfolding perform_mutation optional_body
  auto_assign_referees tournament_id weights =
      perform_mutation answer post
        (of_tournament tournament_id (word "matches" ∷ word "auto-assign-referees" ∷ []))
        (optional_body weights)
        (record { invalidate_issues = false; tournament_id = value none; catch_errors = true })

  pub schedule_matches : ℕ → Option String → Action W (Option Response)
  unfolding perform_mutation optional_body
  schedule_matches tournament_id weights =
      perform_mutation answer post (of_tournament tournament_id (word "schedule_matches" ∷ []))
        (optional_body weights) (of tournament_id)

  pub reoptimize_matches : ℕ → Option String → Action W (Option Response)
  unfolding perform_mutation optional_body
  reoptimize_matches tournament_id weights =
      perform_mutation answer post (of_tournament tournament_id (word "reoptimize_matches" ∷ []))
        (optional_body weights) (of tournament_id)
