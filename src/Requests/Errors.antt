-- ===== src/Requests/Errors.antt =====
-- What a write request leaves behind when it is answered and when it is rejected.
use bracket.Base.{
  ℕ, ◌≡◌, Bool, true, false, ◌&&◌, ◌||◌, [], ◌∷◌, Option, none, some, arith, ◌+◌, length,
  if◌then◌else◌,
}
use bracket.Base.Exec.{Outcome, done, thrown}
use bracket.Requests.{
  Failure, axios_error, other_error, validation_errors, plain, ErrorData, null_data, json, Route,
  MutationVerb, post, put, patch, delete, Body, no_body, Request, mutation, Response, Client,
  MutationOptions, value, perform_mutation, handle_request_error,
}

-- The function returned a value.
abbrev pub returns : {E A : Type 0} → Outcome E A → Bool
returns (done a) = true
returns (thrown e) = false

-- An answer whose body has a `detail` to show or none at all: not `null`, no empty list of errors.
abbrev pub is_readable_data : ErrorData → Bool
is_readable_data null_data = false
is_readable_data (json (some (validation_errors []))) = false
is_readable_data _ = true

abbrev pub is_readable : Failure → Bool
is_readable other_error = true
is_readable (axios_error e) =
    e.network || (elim e.response [ none ↦ true | some r ↦ is_readable_data r.body ])

-- The request that is sent: DELETE has no body.
abbrev pub request_of : MutationVerb → Route → Body → Request
request_of delete path body = mutation delete path no_body
request_of verb path body = mutation verb path body

abbrev pub readable_rejection : Outcome Failure Response → Bool
readable_rejection (done r) = false
readable_rejection (thrown e) = is_readable e

-- Is there something to show: the server was not reached, or the answer has a text or a list of
-- errors that is not empty?
abbrev pub has_text : ErrorData → Bool
has_text null_data = false
has_text (json none) = false
has_text (json (some (validation_errors []))) = false
has_text (json (some (validation_errors (e ∷ es)))) = true
has_text (json (some (plain text))) = true

abbrev pub shown_rejection : Outcome Failure Response → Bool
shown_rejection (done r) = false
shown_rejection (thrown other_error) = false
shown_rejection (thrown (axios_error e)) =
    e.network || (elim e.response [ none ↦ false | some r ↦ has_text r.body ])

pub handle_request_error-server :
    {W : Type 0} (e : Failure) (c : Client W) → (handle_request_error e c).1.server ≡ c.server
unfolding handle_request_error
handle_request_error-server e c = ground arith

module _ {W : Type 0} (answer : Request → W → Outcome Failure Response × W) where
  -- A write for a known tournament returns exactly if the server answers, or if errors are caught
  -- and the rejection can be read, and exactly then the issue counts of the tournament are outdated.
  pub perform_mutation_settles :
      (verb : MutationVerb) (path : Route) (body : Body) (options : MutationOptions W) (id : ℕ)
      (c : Client W)
      → options.invalidate_issues ≡ true
      → options.tournament_id ≡ value (some id)
      → let o = (answer (request_of verb path body) c.server).0 in
        let (r, c') = perform_mutation answer verb path body options c in
        (returns r ≡ (returns o || (options.catch_errors && readable_rejection o)))
        × (c'.invalidated ≡ (if returns r then id ∷ c.invalidated else c.invalidated))
  unfolding perform_mutation
  perform_mutation_settles post path body options id c h k = ground arith
  perform_mutation_settles put path body options id c h k = ground arith
  perform_mutation_settles patch path body options id c h k = ground arith
  perform_mutation_settles delete path body options id c h k = ground arith

  -- A rejected write shows one notification if errors are caught and it carries something to show,
  -- and an answered write or one whose errors are not caught shows none.
  pub perform_mutation_notifies :
      (verb : MutationVerb) (path : Route) (body : Body) (options : MutationOptions W)
      (id : Option ℕ) (c : Client W)
      → options.tournament_id ≡ value id
      → let o = (answer (request_of verb path body) c.server).0 in
        length (perform_mutation answer verb path body options c).1.notifications
        ≡ (if options.catch_errors && shown_rejection o then 1 else 0) + length c.notifications
  unfolding perform_mutation
  perform_mutation_notifies post path body options id c k = ground arith
  perform_mutation_notifies put path body options id c k = ground arith
  perform_mutation_notifies patch path body options id c k = ground arith
  perform_mutation_notifies delete path body options id c k = ground arith
