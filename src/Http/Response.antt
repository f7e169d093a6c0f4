-- ===== src/Http/Response.antt =====
-- internal/transport/http/problem.go, and how the handlers of internal/transport/http/*.go turn an
-- error of the service into a problem.
use Prim.Native.String
use whatsmeow_api.Prelude.{ℕ, String, List}
use whatsmeow_api.Json.{Json}
use whatsmeow_api.Errors.{
  Error, invalid_request, forbidden, not_found, not_connected, not_logged_in, already_logged_in,
  login_in_progress, failure, Result, ok, err,
}

-- A problem has its status, its code and its detail; a stream has its frames, each an event's name
-- and its data; a file has its MIME type, its size and its path.
pub data Response : Type 0 where
  problem : ℕ → String → String → Response
  json : ℕ → Json → Response
  no_content : Response
  sse : List (String × Json) → Response
  file : String → ℕ → String → Response

-- `err.Error()`
abbrev pub error_text : Error → String
error_text (invalid_request why) = String.◌++◌ "service: invalid request: " why
error_text (forbidden why) = String.◌++◌ "service: forbidden: " why
error_text not_found = "store: not found"
error_text not_connected = "waclient: not connected"
error_text not_logged_in = "waclient: not logged in"
error_text already_logged_in = "waclient: already logged in"
error_text login_in_progress = "waclient: login already in progress"
error_text (failure why) = why

abbrev pub bad_request : String → Response
bad_request detail = problem 400 "request.invalid" detail

abbrev pub internal : Error → Response
internal e = problem 500 "internal" (error_text e)

-- The switches. Each is the one of several handlers.
unfoldable pub read_problem : Error → Response
read_problem (invalid_request why) = bad_request (error_text (invalid_request why))
read_problem e = internal e

unfoldable pub get_chat_problem : Error → Response
get_chat_problem not_found = problem 404 "chat.not_found" "no chat with that jid"
get_chat_problem e = internal e

unfoldable pub get_media_problem : Error → Response
get_media_problem not_found = problem 404 "media.not_found" "no media for that message id"
get_media_problem (invalid_request why) = bad_request (error_text (invalid_request why))
get_media_problem e = internal e

unfoldable pub send_problem : Error → Response
send_problem (invalid_request why) = bad_request (error_text (invalid_request why))
send_problem not_connected = problem 409 "wa.not_connected" (error_text not_connected)
send_problem e = problem 500 "wa.send_failed" (error_text e)

unfoldable pub members_problem : Error → Response
members_problem (invalid_request why) = bad_request (error_text (invalid_request why))
members_problem not_connected = problem 409 "wa.not_connected" (error_text not_connected)
members_problem e = internal e

unfoldable pub react_problem : Error → Response
react_problem (invalid_request why) = bad_request (error_text (invalid_request why))
react_problem not_found = problem 404 "message.not_found" (error_text not_found)
react_problem not_connected = problem 409 "wa.not_connected" (error_text not_connected)
react_problem e = problem 500 "wa.send_failed" (error_text e)

unfoldable pub edit_problem : Error → Response
edit_problem (invalid_request why) = bad_request (error_text (invalid_request why))
edit_problem (forbidden why) = problem 403 "message.forbidden" (error_text (forbidden why))
edit_problem not_found = problem 404 "message.not_found" (error_text not_found)
edit_problem not_connected = problem 409 "wa.not_connected" (error_text not_connected)
edit_problem e = problem 500 "wa.send_failed" (error_text e)

unfoldable pub login_problem : Error → Response
login_problem already_logged_in = problem 409 "wa.already_logged_in" (error_text already_logged_in)
login_problem login_in_progress = problem 409 "wa.login_in_progress" (error_text login_in_progress)
login_problem e = problem 500 "wa.login_failed" (error_text e)

unfoldable pub logout_problem : Error → Response
logout_problem not_logged_in = problem 409 "wa.not_logged_in" (error_text not_logged_in)
logout_problem e = problem 500 "wa.internal" (error_text e)

-- What a handler answers to a result.
abbrev pub answer {ℓ} : {A : Type ℓ} → (A → Response) → (Error → Response) → Result A → Response
answer good bad (ok a) = good a
answer good bad (err e) = bad e
