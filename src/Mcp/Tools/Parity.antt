-- ===== src/Mcp/Tools/Parity.antt =====
-- internal/transport/mcp/tools_*.go against internal/transport/http/*.go: the tools that change
-- something, and the handlers for the same use cases.
use whatsmeow_api.Prelude.{
  ◌≡◌, refl, sym, subst, ap, String, Bool, true, false, some, arith, ltb, len, ◌==◌, if◌then◌else◌,
  Bool-cases, ◌⊎◌, inl, inr,
}
use whatsmeow_api.Text.{is_blank}
use whatsmeow_api.Errors.{
  Error, Result, ok, err, invalid_request, not_connected, forbidden, not_logged_in,
}
use whatsmeow_api.Json.{Json, time}
use whatsmeow_api.Store.Bundle.{Bundle}
use whatsmeow_api.Waclient.Client.{WaClient}
use whatsmeow_api.Service.World.{MediaDisk, World, max_text_len}
use whatsmeow_api.Service.Send.{send_text, send_media}
use whatsmeow_api.Http.Form.{MediaForm, media_of, pick_mime, or_octets, extension}
use whatsmeow_api.Service.Send.Guards.{IsSendable, send_text_refused, send_media_refused}
use whatsmeow_api.Service.Edit.{edit_message, delete_message}
use whatsmeow_api.Service.React.{send_reaction, mark_message_read, send_typing}
use whatsmeow_api.Service.Groups.{
  create_group, update_group_members, leave_group, list_group_members, logout,
}
use whatsmeow_api.Http.Response.{
  Response, problem, json, send_problem, react_problem, edit_problem, members_problem,
  logout_problem,
}
use whatsmeow_api.Http.Writes.{
  SendTextRequest, respond, send_text_handler, edit_message_handler, sent_json, edited_json,
}
use whatsmeow_api.Http.Writes.Refusals.{send_text_handler-refused, send_text_handler-passed}
use whatsmeow_api.Mcp.Tools.{
  ToolResult, output, failed, tool, one, wa_send_text, wa_send_media, wa_edit_message,
}
use whatsmeow_api.Mcp.Outputs.{message_to_output}
use whatsmeow_api.Mcp.Tools.Request.{
  Request, text_request, media_request, edit_request, delete_request, react_request, read_request,
  typing_request, group_request, members_request, leave_request, list_request, logout_request,
  named, via_http, via_mcp,
}

abbrev pub is_success : Response → Bool
is_success (problem _ _ _) = false
is_success _ = true

abbrev pub is_output : ToolResult → Bool
is_output (output _) = true
is_output (failed _) = false

send_problem-failed : (e : Error) → is_success (send_problem e) ≡ false
unfolding send_problem
send_problem-failed (invalid_request why) = refl
send_problem-failed not_connected = refl
send_problem-failed _ = refl

edit_problem-failed : (e : Error) → is_success (edit_problem e) ≡ false
unfolding edit_problem
edit_problem-failed (invalid_request why) = refl
edit_problem-failed (forbidden why) = refl
edit_problem-failed _ = refl

react_problem-failed : (e : Error) → is_success (react_problem e) ≡ false
unfolding react_problem
react_problem-failed (invalid_request why) = refl
react_problem-failed _ = refl

members_problem-failed : (e : Error) → is_success (members_problem e) ≡ false
unfolding members_problem
members_problem-failed (invalid_request why) = refl
members_problem-failed _ = refl

logout_problem-failed : (e : Error) → is_success (logout_problem e) ≡ false
unfolding logout_problem
logout_problem-failed not_logged_in = refl
logout_problem-failed _ = refl

pick_mime-nonempty :
    (types : String → String) (f : MediaForm)
    → (pick_mime types f.content_type f.filename == "") ≡ false
unfolding pick_mime
pick_mime-nonempty types f = elim (Bool-cases (f.content_type == "")) [
  | inl empty ↦ rw empty (found (extension "" f.filename))
  | inr given ↦ elim (Bool-cases (f.content_type == "application/octet-stream")) [
    | inl octets ↦ rw (given, octets) (found (extension "" f.filename))
    | inr specific ↦ rw (given, specific, given) refl
  ]
]
  where
    found :
        (e : String)
        → ((if e == "" then "application/octet-stream" else or_octets (types e)) == "") ≡ false
    found e = elim (Bool-cases (e == "")) [
      | inl none_found ↦ rw none_found refl
      | inr some_found ↦ elim (Bool-cases (types e == "")) [
        | inl unknown ↦ rw (some_found, unknown) refl
        | inr known ↦ rw (some_found, known, known) refl
      ]
    ]

sendable : (chat_jid text : String) → IsSendable chat_jid text ⊎ ¬ IsSendable chat_jid text
sendable chat_jid text = elim (Bool-cases (is_blank chat_jid)) [
  | inl blank ↦ inr (λ s. absurd (cc (blank, s.chat)))
  | inr named ↦ elim (Bool-cases (text == "")) [
    | inl empty ↦ inr (λ s. absurd (cc (empty, s.some_text)))
    | inr some_text ↦ elim (Bool-cases (ltb max_text_len (len text))) [
      | inl long ↦ inr (λ s. ground (arith, s.short))
      | inr short ↦ inl (record { chat = named; some_text = some_text; short = ground arith })
    ]
  ]
]

module _ {B : Bundle} {W : WaClient} {D : MediaDisk} where
  -- The same effect, and success in one exactly if in the other.
  abbrev Agree : Response × World B W D → ToolResult × World B W D → Type 0
  Agree (r, w) (t, v) = (w ≡ v) × (is_success r ≡ is_output t)

  Agree-answers {ℓ} :
      {A : Type ℓ} (good : A → Response) (bad : Error → Response) (encode : A → Json)
      (p : Result A × World B W D)
      → ((a : A) → is_success (good a) ≡ true)
      → ((e : Error) → is_success (bad e) ≡ false)
      → Agree (respond good bad p) (tool encode p)
  Agree-answers good bad encode (ok a, w) g b = (refl, g a)
  Agree-answers good bad encode (err e, w) g b = (refl, b e)

  Agree-along :
      {p p' : Response × World B W D} {q q' : ToolResult × World B W D}
      → p ≡ p'
      → q ≡ q'
      → Agree p' q'
      → Agree p q
  Agree-along {p} {p'} {q} {q'} e f h =
      subst (λ p. Agree p q) (sym e) (subst (λ q. Agree p' q) (sym f) h)

  text-Agree :
      (req : SendTextRequest) (w : World B W D)
      → Agree (send_text_handler (some req) w) (wa_send_text req.chat_jid req.text req.reply_to w)
  unfolding wa_send_text
  text-Agree req w = elim (sendable req.chat_jid req.text) [
    | inl fine ↦ Agree-along (send_text_handler-passed w req fine) refl (
        Agree-answers (λ m. json 201 (sent_json m (time m.timestamp))) send_problem
          (one "message" message_to_output) (send_text req.chat_jid req.text req.reply_to w)
          (λ _. refl) send_problem-failed)
    | inr bad ↦
        let (_, http) = send_text_handler-refused w req bad in
        let (_, mcp) = send_text_refused w req.chat_jid req.text req.reply_to bad in
        Agree-along http (ap (tool (one "message" message_to_output)) mcp) (refl, refl)
  ]

  -- An empty text is refused by the handler itself, or by the service.
  edit-Agree :
      (id text : String) (w : World B W D)
      → Agree (edit_message_handler id (some text) w) (wa_edit_message id text w)
  unfolding edit_message_handler wa_edit_message
  edit-Agree id text w = elim (Bool-cases (text == "")) [
    | inl empty ↦ elim (Bool-cases (is_blank id)) [
      | inl blank ↦ rw (empty, blank, edit_message) (refl, refl)
      | inr named ↦ rw (empty, named, edit_message) (refl, refl)
    ]
    | inr some_text ↦ Agree-along (passed some_text) refl (
        Agree-answers (λ m. json 200 (edited_json m)) edit_problem (one "message" message_to_output)
          (edit_message id text w) (λ _. refl) edit_problem-failed)
  ]
    where
      passed :
          (text == "") ≡ false
          → edit_message_handler id (some text) w
            ≡ respond (λ m. json 200 (edited_json m)) edit_problem (edit_message id text w)
      passed some_text = rw some_text refl

  request-Agree :
      (types : String → String) (r : Request) (w : World B W D)
      → Agree (via_http types r w) (via_mcp (named types r) w)
  unfolding via_http via_mcp
  request-Agree types (text_request req) w = text-Agree req w
  request-Agree types (edit_request id text) w = edit-Agree id text w
  request-Agree types (media_request f) w =
      Agree-answers _ send_problem _
        (send_media (media_of (pick_mime types f.content_type f.filename) f) w) (λ _. refl)
        send_problem-failed
  request-Agree types (delete_request id) w =
      Agree-answers _ edit_problem _ (delete_message id w) (λ _. refl) edit_problem-failed
  request-Agree types (react_request id emoji) w =
      Agree-answers _ react_problem _ (send_reaction id emoji w) (λ _. refl) react_problem-failed
  request-Agree types (read_request id) w =
      Agree-answers _ react_problem _ (mark_message_read id w) (λ _. refl) react_problem-failed
  request-Agree types (typing_request jid state) w =
      Agree-answers _ send_problem _ (send_typing jid state w) (λ _. refl) send_problem-failed
  request-Agree types (group_request name members) w =
      Agree-answers _ send_problem _ (create_group name members w) (λ _. refl) send_problem-failed
  request-Agree types (members_request jid action members) w =
      Agree-answers _ send_problem _ (update_group_members jid action members w) (λ _. refl)
        send_problem-failed
  request-Agree types (leave_request jid) w =
      Agree-answers _ send_problem _ (leave_group jid w) (λ _. refl) send_problem-failed
  request-Agree types (list_request jid) w =
      Agree-answers _ members_problem _ (list_group_members jid w) (λ _. refl)
        members_problem-failed
  request-Agree types logout_request w =
      Agree-answers _ logout_problem _ (logout w) (λ _. refl) logout_problem-failed

  untyped_refused :
      (f : MediaForm) (w : World B W D)
      → ((via_mcp (media_request (record f { content_type = "" })) w).1 ≡ w)
        × (is_output (via_mcp (media_request (record f { content_type = "" })) w).0 ≡ false)
  unfolding via_mcp wa_send_media is_blank
  untyped_refused f w =
      let (why, e) = send_media_refused w (media_of "" f) (λ s. absurd (cc (s.mime))) in
      (
        ap (λ p. (tool (one "message" message_to_output) p).1) e,
        ap (λ p. is_output (tool (one "message" message_to_output) p).0) e,
      )

  -- A request that both interfaces can decode, to send, edit or delete a message, to react, mark as
  -- read or type, to work on a group or to log out, has the same effect over HTTP and as a tool that
  -- is given the MIME type that the HTTP interface finds for a file, and it finds one: both leave the same world, and
  -- the handler answers with a problem exactly if the tool fails. Without a MIME type the tool refuses
  -- any file, and nothing changes.
  pub via_http-via_mcp :
      (types : String → String) (r : Request) (w : World B W D)
      → (((via_http types r w).1 ≡ (via_mcp (named types r) w).1)
          × (is_success (via_http types r w).0 ≡ is_output (via_mcp (named types r) w).0))
        × ((f : MediaForm)
            → ((pick_mime types f.content_type f.filename == "") ≡ false)
              × ((via_mcp (media_request (record f { content_type = "" })) w).1 ≡ w)
              × (is_output (via_mcp (media_request (record f { content_type = "" })) w).0 ≡ false))
  via_http-via_mcp types r w = (
    request-Agree types r w,
    λ f. let (same, refused) = untyped_refused f w in (pick_mime-nonempty types f, same, refused),
  )
