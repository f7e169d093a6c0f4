-- ===== src/Http/Login.antt =====
-- internal/transport/http/{login_qr,login_phone,logout,sse}.go. The frames are written while the
-- service's channel yields them; a terminal one ends the answer.
use whatsmeow_api.Prelude.{String, Option, none, some, List, [], ◌∷◌, if◌then◌else◌}
use whatsmeow_api.Json.{Json, object, field, text, num, end}
use whatsmeow_api.Store.Bundle.{Bundle}
use whatsmeow_api.Waclient.{LoginEvent}
use whatsmeow_api.Waclient.Client.{WaClient}
use whatsmeow_api.Waclient.Jid.{is_valid_phone_number}
use whatsmeow_api.Service.World.{MediaDisk, World}
use whatsmeow_api.Service.Groups.{login_qr, login_phone, logout}
use whatsmeow_api.Http.Response.{
  Response, sse, no_content, bad_request, login_problem, logout_problem,
}
use whatsmeow_api.Http.Writes.{respond}
use Prim.Native.Nat.{ℕ}

-- The loop over the channel, with the name of a code's event and how long the code lives.
unfoldable pub login_frames : String → ℕ → List LoginEvent → List (String × Json)
login_frames name seconds [] = []
login_frames name seconds (ev ∷ evs) =
    let rest = login_frames name seconds evs in
    if ev.terminal
    then ("connection", object (field "outcome" (text ev.outcome) end)) ∷ []
    else (name, object (field "code" (text ev.code) (field "expires_in_s" (num seconds) end)))
      ∷ rest

module _ {B : Bundle} {W : WaClient} {D : MediaDisk} where
  unfoldable pub login_qr_handler : World B W D → Response × World B W D
  unfolding login_qr login_problem login_frames
  login_qr_handler w = respond (λ evs. sse (login_frames "qr" 20 evs)) login_problem (login_qr w)

  unfoldable pub login_phone_handler : Option String → World B W D → Response × World B W D
  unfolding login_phone login_problem login_frames
  login_phone_handler none w = (bad_request "malformed JSON body", w)
  login_phone_handler (some phone) w =
      if is_valid_phone_number phone
      then respond (λ evs. sse (login_frames "pair_code" 120 evs)) login_problem
          (login_phone phone w)
      else (bad_request "phone_number must be E.164 (e.g. +27821234567)", w)

  unfoldable pub logout_handler : World B W D → Response × World B W D
  unfolding logout logout_problem
  logout_handler w = respond (λ _. no_content) logout_problem (logout w)
