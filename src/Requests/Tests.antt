-- ===== src/Requests/Tests.antt =====
-- Tests of the requests.
use bracket.Base.{ℕ, ◌+◌, ◌≡◌, refl, true, false, ◌&&◌, ◌||◌, [], ◌∷◌, none, some, if◌then◌else◌}
use bracket.Base.Exec.{Outcome, done, thrown}
use bracket.Requests.{
  Failure, axios_error, validation_errors, json, Route, word, number, post, delete, no_body,
  Request, mutation, fetch, Response, Client, red, literal, send, perform_mutation,
  handle_request_error,
}
use bracket.Requests.Errors.{returns, request_of, readable_rejection, perform_mutation_settles}
use bracket.Requests.Matches.{of, uncaught, by_token, known_or_looked_up}
use bracket.Requests.Tokens.{resolved, added, by_token_settles}

-- A failed validation of the field `court_id`.
abbrev invalid : Failure
invalid = axios_error (record {
  network = false;
  response = some (record {
    status = 422;
    body = json (
        some (
          validation_errors
            (record { loc = "body" ∷ "court_id" ∷ []; msg = "Field required" } ∷ [])));
  });
})

-- The server counts the requests: it rejects writes, and knows the tournament of every token.
abbrev answer : Request → ℕ → Outcome Failure Response × ℕ
answer (mutation verb path body) w = (thrown invalid, w + 1)
answer (fetch path) w = (done (record { tournament_id = some 4 }), w + 1)

abbrev client : Client ℕ
client = record { server = 0; notifications = []; invalidated = [] }

abbrev path : Route
path = word "tournaments" ∷ number 1 ∷ word "matches" ∷ number 5 ∷ []

message_test :
    (perform_mutation answer delete path no_body (of 1) client).1.notifications
    ≡ record {
      color = red;
      title = literal "An error occurred";
      message = literal "court_id: Field required";
    }
      ∷ []
unfolding perform_mutation
message_test = refl

perform_mutation_settles_example :
    let o = (answer (request_of delete path no_body) 0).0 in
    let (r, c') = perform_mutation answer delete path no_body (uncaught 1) client in
    (returns r ≡ (returns o || (false && readable_rejection o)))
    × (c'.invalidated ≡ (if returns r then 1 ∷ [] else []))
perform_mutation_settles_example =
    perform_mutation_settles answer delete path no_body (uncaught 1) 1 client refl refl

swallowed :
    returns (perform_mutation answer post path no_body (by_token answer "t" none) client).0 ≡ true
unfolding perform_mutation known_or_looked_up send handle_request_error
swallowed = refl

by_token_settles_example :
    (perform_mutation answer post path no_body (by_token answer "t" none) client).1.invalidated
    ≡ added (resolved none (answer (fetch (word "score-tracking" ∷ word "t" ∷ [])) 1).0) []
by_token_settles_example = by_token_settles answer path no_body "t" none client swallowed
