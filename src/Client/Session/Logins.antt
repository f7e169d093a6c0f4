-- ===== src/Client/Session/Logins.antt =====
-- internal/client/client.go on the daemon: what the client is told of a login and a logout is what the
-- adapter of internal/waclient/whatsmeow_adapter.go says, through the service and its HTTP handlers.
use whatsmeow_api.Prelude.{◌≡◌, refl, ap, some, String, true, List, [], ◌∷◌, arith}
use whatsmeow_api.Errors.{
  Result, ok, err, Error, not_logged_in, already_logged_in, login_in_progress,
}
use whatsmeow_api.Store.Bundle.{Bundle}
use whatsmeow_api.Service.World.{MediaDisk, World}
use whatsmeow_api.Service.Groups.{login_qr, login_phone, logout}
use whatsmeow_api.Waclient.{LoginEvent}
use whatsmeow_api.Waclient.Login.{code_frame, terminal_frame}
use whatsmeow_api.Waclient.Login.Qr.{QrItem}
use whatsmeow_api.Waclient.Login.Qr.Frames.{qr_frames}
use whatsmeow_api.Waclient.Jid.{is_valid_phone_number}
use whatsmeow_api.Waclient.Adapter.{Whatsmeow, Adapter}
use whatsmeow_api.Waclient.Adapter.Connection.{begin_qr, begin_phone, adapter_logout}
use whatsmeow_api.Waclient.Adapter.Calls.Group.{in_result}
use whatsmeow_api.Waclient.Adapter.Implements.{adapter_client}
use whatsmeow_api.Http.Response.{login_problem, answer, logout_problem, sse, no_content}
use whatsmeow_api.Http.Login.{login_frames, login_qr_handler, login_phone_handler, logout_handler}
use whatsmeow_api.Client.Problem.{ClientError, problem_error, of_login, of_logout}
use whatsmeow_api.Client.Session.{
  ClientResult, client_ok, client_err, error_of_response, client_frames, open_sse, client_login_qr,
  client_login_phone, client_logout,
}

-- The result of the adapter, as the client tells it.
abbrev pub told {ℓ κ} :
    {V : Type ℓ} {R : Type κ} → (V → R) → (Error → ClientError) → Result V → ClientResult R
told f of_error (ok v) = client_ok (f v)
told f of_error (err e) = client_err (of_error e)

frames-read :
    (items : List QrItem)
    → client_frames "qr" (login_frames "qr" 20 (qr_frames items)) ≡ qr_frames items
unfolding client_frames login_frames qr_frames
frames-read [] = refl
frames-read (item ∷ rest) = ground (arith, frames-read rest)

qr_error-read : (e : Error) → client_login_qr (login_problem e) ≡ client_err (of_login e)
unfolding client_login_qr open_sse error_of_response login_problem problem_error
qr_error-read already_logged_in = refl
qr_error-read login_in_progress = refl
qr_error-read _ = refl

phone_error-read : (e : Error) → client_login_phone (login_problem e) ≡ client_err (of_login e)
unfolding client_login_phone open_sse error_of_response login_problem problem_error
phone_error-read already_logged_in = refl
phone_error-read login_in_progress = refl
phone_error-read _ = refl

logout_error-read : (e : Error) → client_logout (logout_problem e) ≡ client_err (of_logout e)
unfolding client_logout error_of_response logout_problem problem_error
logout_error-read not_logged_in = refl
logout_error-read _ = refl

qr_answer-read :
    {M : Whatsmeow}
    → (p : Result (List QrItem) × Adapter M)
    → client_login_qr
        (answer (λ evs. sse (login_frames "qr" 20 evs)) login_problem (in_result qr_frames p).0)
      ≡ told qr_frames of_login p.0
unfolding client_login_qr open_sse
qr_answer-read (ok items, a) = ap client_ok (frames-read items)
qr_answer-read (err e, a) = qr_error-read e

-- The frames of a phone login that ends with an outcome.
abbrev pub phone_frames : String → String → List LoginEvent
phone_frames outcome code = code_frame code ∷ terminal_frame outcome ∷ []

phone_answer-read :
    {M : Whatsmeow}
    → (outcome : String) → (p : Result String × Adapter M)
    → client_login_phone (
        answer
          (λ evs. sse (login_frames "pair_code" 120 evs))
          login_problem
          (in_result (phone_frames outcome) p).0)
      ≡ told (phone_frames outcome) of_login p.0
unfolding client_login_phone open_sse client_frames login_frames
phone_answer-read outcome (ok code, a) = refl
phone_answer-read outcome (err e, a) = phone_error-read e

logout_answer-read :
    (r : Result (Unit {0}))
    → client_logout (answer (λ _. no_content) logout_problem r) ≡ told (λ u. u) of_logout r
unfolding client_logout
logout_answer-read (ok u) = refl
logout_answer-read (err e) = logout_error-read e

module _ {B : Bundle} {M : Whatsmeow} (ending : Adapter M → String) {D : MediaDisk}
    (w : World B (adapter_client M ending) D) where
  -- What the client is told through the daemon is what the adapter says: of a login with a QR code the
  -- frames of the adapter's channel, of a login with a phone number that is well formed its pairing
  -- code and then how it ends, and of a logout that it is done; and of any of them that the adapter
  -- refuses, the client's error for the adapter's error.
  pub logins-read :
      (phone : String)
      → is_valid_phone_number phone ≡ true
      → (client_login_qr (login_qr_handler w).0 ≡ told qr_frames of_login (begin_qr w.net).0)
        × (client_login_phone (login_phone_handler (some phone) w).0
            ≡ told (phone_frames (ending w.net)) of_login (begin_phone phone w.net).0)
        × (client_logout (logout_handler w).0 ≡ told (λ u. u) of_logout (adapter_logout w.net).0)
  unfolding login_qr_handler login_qr login_phone_handler login_phone logout_handler logout
  logins-read phone valid = (
    qr_answer-read (begin_qr w.net),
    rw valid (phone_answer-read (ending w.net) (begin_phone phone w.net)),
    logout_answer-read (adapter_logout w.net).0,
  )
