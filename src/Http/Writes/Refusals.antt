-- ===== src/Http/Writes/Refusals.antt =====
-- Requests to send a text that the HTTP interface refuses.
use whatsmeow_api.Prelude.{
  ◌≡◌, refl, ap, ◌∙◌, String, true, false, eq_iff, le→ltb, some, len, ltb, ◌==◌, Bool-cases, inl,
  inr,
}
use Prim.Native.String
use whatsmeow_api.Text.{is_blank}
use whatsmeow_api.Json.{time}
use whatsmeow_api.Store.Bundle.{Bundle}
use whatsmeow_api.Waclient.Client.{WaClient}
use whatsmeow_api.Service.World.{MediaDisk, World}
use whatsmeow_api.Service.Send.{send_text}
use whatsmeow_api.Service.Send.Guards.{IsSendable, send_text_refused}
use whatsmeow_api.Http.Response.{problem, json, send_problem}
use whatsmeow_api.Http.Writes.{SendTextRequest, sent_json, respond, send_text_handler}

named_of : (jid : String) → is_blank jid ≡ false → (jid == "") ≡ false
unfolding is_blank
named_of jid named = elim (Bool-cases (jid == "")) [
  | inl empty ↦ absurd (cc ((eq_iff jid "").0 empty, named, blank_empty))
  | inr some_text ↦ some_text
]
  where
    blank_empty : is_blank "" ≡ true
    blank_empty = refl

module _ {B : Bundle} {W : WaClient} {D : MediaDisk} (w : World B W D) (req : SendTextRequest) where
  -- What the API admits passes the handler's own checks.
  pub send_text_handler-passed :
      IsSendable req.chat_jid req.text
      → send_text_handler (some req) w
        ≡ respond
            (λ m. json 201 (sent_json m (time m.timestamp)))
            send_problem
            (send_text req.chat_jid req.text req.reply_to w)
  unfolding send_text_handler
  send_text_handler-passed fine =
      rw (named_of req.chat_jid fine.chat, fine.some_text, le→ltb 4096 (len req.text) fine.short)
        refl

  -- A request whose chat is blank, whose text is empty or whose text has more than 4096 bytes is
  -- answered with status 400 and code request.invalid, by the handler's own checks or by those of
  -- the service, and leaves everything as it was.
  pub send_text_handler-refused :
      ¬ IsSendable req.chat_jid req.text
      → (why : String) × (send_text_handler (some req) w ≡ (problem 400 "request.invalid" why, w))
  unfolding send_text_handler send_problem
  send_text_handler-refused bad = elim (Bool-cases (req.chat_jid == "")) [
    | inl no_chat ↦ ("chat_jid is required", rw no_chat refl)
    | inr chat ↦ elim (Bool-cases (req.text == "")) [
      | inl no_text ↦ ("text is required", rw (chat, no_text) refl)
      | inr text ↦ elim (Bool-cases (ltb 4096 (len req.text))) [
        | inl long ↦ ("text exceeds 4096 bytes", rw (chat, text, long) refl)
        | inr short ↦
            let (why, e) = send_text_refused w req.chat_jid req.text req.reply_to bad in
            let answered = respond (λ m. json 201 (sent_json m (time m.timestamp))) send_problem in
            let passed : send_text_handler (some req) w
                ≡ answered (send_text req.chat_jid req.text req.reply_to w) =
              rw (chat, text, short) refl in
            (String.◌++◌ "service: invalid request: " why, passed ∙ ap answered e)
      ]
    ]
  ]
