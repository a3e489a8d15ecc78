-- ===== src/Requests.antt =====
-- frontend/src/services/adapter.tsx: write requests, their errors and the issue counts they outdate.
-- The server is a parameter: it answers a request or rejects it, and keeps a state of its own. What
-- is thrown is an `AxiosError` or an error of another class, without `code` and `response`.
pub mod Matches
pub mod Errors
pub mod Tokens
mod Tests
use Prim.Native.String.{String, ◌++◌}
use bracket.Base.{ℕ, Bool, true, false, List, [], ◌∷◌, Option, none, some, if◌then◌else◌, drop}
use bracket.Base.Exec.{Outcome, done, thrown, Exec, pure, throw, try_catch, on_part, ◌>>=◌, ◌>>◌}
use bracket.Selection.{RescheduleBody}
use bracket.Polling.{Thrown, object}

-- An entry of the list that a failed validation returns.
pub record ValidationError : Type 0 where
  pub loc : List String
  pub msg : String

pub data Detail : Type 0 where
  validation_errors : List ValidationError → Detail
  plain : String → Detail

-- The body of an answer: `null`, or a value with or without `detail`.
pub data ErrorData : Type 0 where
  null_data : ErrorData
  json : Option Detail → ErrorData

pub record ErrorAnswer : Type 0 where
  pub status : ℕ
  pub body : ErrorData

pub record AxiosError : Type 0 where
  -- `code === 'ERR_NETWORK'`
  pub network : Bool
  pub response : Option ErrorAnswer

pub data Failure : Type 0 where
  axios_error : AxiosError → Failure
  other_error : Failure

unfoldable pub is_axios_error : Failure → Bool
is_axios_error (axios_error e) = true
is_axios_error other_error = false

-- What the test for a stale schedule sees of it.
unfoldable pub as_thrown : Failure → Thrown
as_thrown other_error = object none
as_thrown (axios_error e) = elim e.response [
  | none ↦ object none
  | some r ↦ object (some (record { status = some r.status }))
]

pub data Color : Type 0 where
  red orange : Color

-- A text of the page: written out, or the key of a translation.
pub data Label : Type 0 where
  literal : String → Label
  translated : String → Label

pub record Notification : Type 0 where
  pub color : Color
  pub title : Label
  pub message : Label

-- `texts.join(separator)`
join : String → List String → String
join separator [] = ""
join separator (text ∷ []) = text
join separator (text ∷ next ∷ texts) = text ++ separator ++ join separator (next ∷ texts)

abbrev pub error_notification : String → Notification
error_notification message = record {
  color = red;
  title = literal "An error occurred";
  message = literal message;
}

pub data Segment : Type 0 where
  word : String → Segment
  number : ℕ → Segment

-- The parts of a URL between its slashes.
abbrev pub Route : Type 0
Route = List Segment

pub data MutationVerb : Type 0 where
  post put delete patch : MutationVerb

-- A body that is only passed on is its JSON text.
pub data Body : Type 0 where
  no_body : Body
  swap_body : (match1_id match2_id : ℕ) → Body
  reschedule_body : RescheduleBody → Body
  resize_break_body : (new_duration_minutes : ℕ) → Body
  json_body : String → Body

pub data Request : Type 0 where
  mutation : MutationVerb → Route → Body → Request
  fetch : Route → Request

-- The part of the answers that is read.
pub record Response : Type 0 where
  pub tournament_id : Option ℕ

-- The server behind the requests, the notifications shown, and the tournaments whose issue counts
-- were marked as outdated, the last one first.
pub record Client (W : Type 0) : Type 0 where
  pub server : W
  pub notifications : List Notification
  pub invalidated : List ℕ

abbrev pub Action : Type 0 → Type 0 → Type 0
Action W A = Exec Failure (Client W) A

module _ {W : Type 0} where
  unfoldable pub show_notification : Notification → Action W Unit
  show_notification n client = (done tt, record client { notifications = n ∷ client.notifications })

  -- `mutate(getIssuesKey(tournament_id))`
  unfoldable pub mutate_issues : ℕ → Action W Unit
  mutate_issues id client = (done tt, record client { invalidated = id ∷ client.invalidated })

  -- The errors of a validation: the first one is shown, and without one `detail[0].loc` throws.
  show_detail : Detail → Action W Unit
  unfolding show_notification throw join
  show_detail (plain text) = show_notification (error_notification text)
  show_detail (validation_errors []) = throw other_error
  show_detail (validation_errors (e ∷ es)) =
      show_notification (error_notification (join " - " (drop 1 e.loc) ++ ": " ++ e.msg))

  show_answer : ErrorData → Action W Unit
  unfolding show_detail throw pure
  show_answer null_data = throw other_error
  show_answer (json none) = pure tt
  show_answer (json (some detail)) = show_detail detail

  unfoldable pub handle_request_error : Failure → Action W Unit
  unfolding show_answer show_notification pure
  handle_request_error other_error = pure tt
  handle_request_error (axios_error e) =
      if e.network
      then show_notification (error_notification "Internal server error")
      else elim e.response [ none ↦ pure tt | some r ↦ show_answer r.body ]

pub data TournamentId (W : Type 0) : Type 0 where
  value : Option ℕ → TournamentId W
  thunk : Action W (Option ℕ) → TournamentId W

pub record MutationOptions (W : Type 0) : Type 0 where
  pub invalidate_issues : Bool
  pub tournament_id : TournamentId W
  pub catch_errors : Bool

module _ {W : Type 0} (answer : Request → W → Outcome Failure Response × W) where
  unfoldable pub send : Request → Action W Response
  unfolding on_part
  send request = on_part (λ c. c.server) (λ w c. record c { server = w }) (answer request)

  -- A body is not sent with DELETE.
  send_mutation_request : MutationVerb → Route → Body → Action W Response
  unfolding send
  send_mutation_request delete path body = send (mutation delete path no_body)
  send_mutation_request verb path body = send (mutation verb path body)

  resolve : TournamentId W → Action W (Option ℕ)
  unfolding pure
  resolve (value id) = pure id
  resolve (thunk body) = body

  invalidate_id : Option ℕ → Action W Unit
  unfolding pure mutate_issues
  invalidate_id none = pure tt
  invalidate_id (some id) = mutate_issues id

  pub invalidate : MutationOptions W → Action W Unit
  unfolding resolve invalidate_id pure ◌>>=◌
  invalidate options =
      if options.invalidate_issues then resolve options.tournament_id >>= invalidate_id else pure tt

  sent : MutationVerb → Route → Body → Action W (Option Response)
  unfolding send_mutation_request ◌>>=◌
  sent verb path body = do response ← send_mutation_request verb path body; pure (some response)

  -- `undefined`, after the error was handled.
  swallow : Failure → Action W (Option Response)
  unfolding handle_request_error ◌>>=◌
  swallow e = do handle_request_error e; pure none

  unfoldable pub perform_mutation :
      MutationVerb → Route → Body → MutationOptions W → Action W (Option Response)
  unfolding sent swallow invalidate try_catch ◌>>=◌
  perform_mutation verb path body options = do
    response ←
        if options.catch_errors
        then try_catch (sent verb path body) swallow
        else sent verb path body
    invalidate options
    pure response
