-- ===== src/Client/Session.antt =====
-- internal/client/client.go: `Logout`, `LoginQR` and `LoginPhone`, from the daemon's answer
-- on. The frames are those of `readSSE`, with the JSON value of their data; the caller goes on
-- receiving, so no `select` takes `ctx.Done()`.
pub mod Logins
use whatsmeow_api.Prelude.{
  ℕ, String, Bool, true, false, Option, none, some, List, [], ◌∷◌, eqb, ◌==◌, if◌then◌else◌,
}
use whatsmeow_api.Time.{Time}
use whatsmeow_api.Json.{Json, bool, text, time, get}
use whatsmeow_api.Waclient.{LoginEvent}
use whatsmeow_api.Waclient.Login.{code_frame, terminal_frame}
use whatsmeow_api.Http.Response.{Response, problem, json, no_content, sse, file}
use whatsmeow_api.Client.Problem.{ClientError, problem_error}

pub data ClientResult {ℓ} (A : Type ℓ) : Type ℓ where
  client_ok : A → ClientResult A
  client_err : ClientError → ClientResult A

-- A field that is decoded into a string: null and a missing key leave it empty.
abbrev pub as_text : Option Json → String
as_text (some (text s)) = s
as_text _ = ""

abbrev pub text_field : String → Json → String
text_field key v = as_text (get key v)

-- `problemError` of an answer, whose body may be no problem.
unfoldable pub error_of_response : Response → ClientError
unfolding problem_error
error_of_response (problem status code detail) = problem_error status code detail
error_of_response (json status body) =
    problem_error status (text_field "code" body) (text_field "detail" body)
error_of_response no_content = problem_error 204 "" ""
error_of_response (sse frames) = problem_error 200 "" ""
error_of_response (file mime size path) = problem_error 200 "" ""

-- The frames of an answer with status 200. A body that is no event stream has none.
unfoldable pub open_sse : Response → ClientResult (List (String × Json))
unfolding error_of_response
open_sse (sse frames) = client_ok frames
open_sse (file mime size path) = client_ok []
open_sse (json status body) =
    if eqb status 200 then client_ok [] else client_err (error_of_response (json status body))
open_sse r = client_err (error_of_response r)

-- The loop over the frames, with the name of a code's event.
unfoldable pub client_frames : String → List (String × Json) → List LoginEvent
client_frames name [] = []
client_frames name ((event, data_of) ∷ rest) =
    let more = client_frames name rest in
    if event == name
    then code_frame (text_field "code" data_of) ∷ more
    else if event == "connection"
    then terminal_frame (text_field "outcome" data_of) ∷ []
    else more

abbrev pub framed : String → ClientResult (List (String × Json)) → ClientResult (List LoginEvent)
framed name (client_ok frames) = client_ok (client_frames name frames)
framed name (client_err e) = client_err e

unfoldable pub client_login_qr : Response → ClientResult (List LoginEvent)
unfolding open_sse client_frames
client_login_qr r = framed "qr" (open_sse r)

unfoldable pub client_login_phone : Response → ClientResult (List LoginEvent)
unfolding open_sse client_frames
client_login_phone r = framed "pair_code" (open_sse r)

unfoldable pub client_logout : Response → ClientResult (Unit {0})
unfolding error_of_response
client_logout no_content = client_ok tt
client_logout r = client_err (error_of_response r)
