-- ===== src/Requests/Tokens.antt =====
-- services/match.tsx: the writes of the score tracking pages, whose tournament may be looked up.
use Prim.Native.String.{String}
use bracket.Base.{ℕ, ◌≡◌, true, List, [], ◌∷◌, Option, none, some, arith}
use bracket.Base.Exec.{Outcome, done, thrown}
use bracket.Requests.{
  Failure, Route, word, post, Body, Request, mutation, fetch, Response, Client, send,
  perform_mutation, handle_request_error,
}
use bracket.Requests.Errors.{returns}
use bracket.Requests.Matches.{by_token, known_or_looked_up}

-- The tournament of the page, or else the one that the server gives for the token.
abbrev pub resolved : Option ℕ → Outcome Failure Response → Option ℕ
resolved (some id) o = some id
resolved none (done r) = r.tournament_id
resolved none (thrown e) = none

abbrev pub added : Option ℕ → List ℕ → List ℕ
added none ids = ids
added (some id) ids = id ∷ ids

module _ {W : Type 0} (answer : Request → W → Outcome Failure Response × W) where
  -- A write with a score tracking token that returns has outdated the issue counts of the page's
  -- tournament, or if the page does not know it of the one looked up after the write, and when the
  -- lookup is rejected or finds none those of no tournament.
  pub by_token_settles :
      (path : Route) (body : Body) (token : String) (t : Option ℕ) (c : Client W)
      → returns (perform_mutation answer post path body (by_token answer token t) c).0 ≡ true
      → let w = (answer (mutation post path body) c.server).1 in
        let (_, c') = perform_mutation answer post path body (by_token answer token t) c in
        c'.invalidated
        ≡ added
            (resolved t (answer (fetch (word "score-tracking" ∷ word token ∷ [])) w).0)
            c.invalidated
  unfolding perform_mutation known_or_looked_up send handle_request_error
  by_token_settles path body token t c h = ground arith
