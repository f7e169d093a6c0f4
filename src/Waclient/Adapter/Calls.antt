-- ===== src/Waclient/Adapter/Calls.antt =====
-- internal/waclient/whatsmeow_adapter.go: the calls that send: `SendText`, `SendMedia` with
-- `buildMediaProto`, `SendEdit`, `SendRevoke`, `SendReaction`, `MarkRead` and `SendChatPresence`.
pub mod Group
pub mod Unsent
use whatsmeow_api.Prelude.{
  ℕ, String, Option, none, some, List, [], ◌∷◌, length, ◌==◌, if◌then◌else◌,
}
use whatsmeow_api.Time.{Time}
use whatsmeow_api.Errors.{Result, ok, err, failure}
use whatsmeow_api.Waclient.{Sent}
use whatsmeow_api.Waclient.Adapter.{
  Whatsmeow, Adapter, Upload, OutMedia, OutMessage, conversation, extended_text, image_message,
  document_message, built, MediaType, media_image, media_document, ChatPresence, presence_composing,
  presence_paused, call, guarded, given, parsed, own_jid,
}

abbrev pub optional_string : String → Option String
optional_string s = if s == "" then none else some s

-- The message of `SendText`: with a reply, the text refers to the message it answers.
unfoldable pub text_message : {Built : Type 0} → String → String → OutMessage Built
text_message text reply_to =
    if reply_to == "" then conversation text else extended_text text reply_to

unfoldable pub media_type_of : String → Option MediaType
media_type_of kind =
    if kind == "image"
    then some media_image
    else if kind == "document"
    then some media_document
    else none

unfoldable pub build_media :
    {Built : Type 0} → MediaType → String → String → String → List ℕ → Upload → OutMessage Built
build_media kind caption filename mime body upload =
    let media : OutMedia = record {
      upload = upload;
      mimetype = mime;
      file_length = length body;
      caption = optional_string caption;
    } in
    elim kind [
      | media_image ↦ image_message media
      | media_document ↦ document_message media filename filename
    ]

unfoldable pub presence_of : String → Option ChatPresence
presence_of state =
    if state == "composing"
    then some presence_composing
    else if state == "paused"
    then some presence_paused
    else none

-- The `default` of a `switch` returns an error; its text quotes the value, which is left out here.
abbrev pub or_unsupported {ℓ} : {A : Type ℓ} → String → Option A → Result A
or_unsupported what none = err (failure what)
or_unsupported what (some a) = ok a

module _ {M : Whatsmeow} where
  abbrev pub sent_by : M.Jid → Result (String × Time) × Adapter M → Result Sent × Adapter M
  sent_by own (err e, a) = (err e, a)
  sent_by own (ok (id, timestamp), a) =
      (ok (record { id = id; timestamp = timestamp; sender_jid = M.jid_text own }), a)

  -- `client.SendMessage`, and what the caller is told of it.
  abbrev pub post :
      String → M.Jid → M.Jid → OutMessage M.Built → Adapter M → Result Sent × Adapter M
  post what own to msg a = sent_by own (call what (M.send_message to msg) a)

  -- What the sending methods have in common: the guard, our own JID, and that of the chat.
  unfoldable pub to_chat :
      String
      → (M.Jid → M.Jid → Adapter M → Result Sent × Adapter M)
      → Adapter M
      → Result Sent × Adapter M
  to_chat chat_jid next = guarded (λ a.
      given (own_jid a) (λ own. given (parsed M "parse chat_jid: " chat_jid) (λ to. next own to)) a)

  unfoldable pub adapter_send_text : String → String → String → Adapter M → Result Sent × Adapter M
  unfolding text_message
  adapter_send_text chat_jid text reply_to =
      to_chat chat_jid (λ own to. post "send text: " own to (text_message text reply_to))

  -- The upload comes before the message that refers to it.
  abbrev pub upload_then :
      MediaType
      → List ℕ
      → (Upload → Adapter M → Result Sent × Adapter M)
      → Adapter M
      → Result Sent × Adapter M
  upload_then kind body next a = uploaded (call "upload: " (M.upload_media body kind) a)
    where
      uploaded : Result Upload × Adapter M → Result Sent × Adapter M
      uploaded (ok upload, a') = next upload a'
      uploaded (err e, a') = (err e, a')

  unfoldable pub adapter_send_media :
      String → String → String → String → String → List ℕ → Adapter M → Result Sent × Adapter M
  unfolding media_type_of build_media
  adapter_send_media chat_jid kind caption filename mime body = to_chat chat_jid (λ own to.
      given (or_unsupported "unsupported media kind" (media_type_of kind)) (λ media_type.
        upload_then media_type body (λ upload.
          post "send media: " own to (build_media media_type caption filename mime body upload))))

  unfoldable pub adapter_send_edit : String → String → String → Adapter M → Result Sent × Adapter M
  adapter_send_edit chat_jid message_id new_text = to_chat chat_jid (λ own to.
      post "send edit: " own to (built (M.build_edit to message_id (conversation new_text))))

  unfoldable pub adapter_send_revoke : String → String → Adapter M → Result Sent × Adapter M
  adapter_send_revoke chat_jid message_id =
      to_chat chat_jid
        (λ own to. post "send revoke: " own to (built (M.build_revoke to M.empty_jid message_id)))

  abbrev pub forget : Result Sent × Adapter M → Result (Unit {0}) × Adapter M
  forget (ok _, a) = (ok tt, a)
  forget (err e, a) = (err e, a)

  unfoldable pub adapter_send_reaction :
      String → String → String → Adapter M → Result (Unit {0}) × Adapter M
  adapter_send_reaction chat_jid message_id emoji a = forget (
      to_chat chat_jid
        (λ own to. post "send reaction: " own to (built (M.build_reaction to own message_id emoji)))
        a)

  unfoldable pub adapter_mark_read :
      String → String → String → Time → Adapter M → Result (Unit {0}) × Adapter M
  adapter_mark_read chat_jid sender_jid message_id timestamp = guarded (
      given (parsed M "parse chat_jid: " chat_jid) (λ chat.
        given (parsed M "parse sender_jid: " sender_jid)
          (λ sender. call "mark read: " (M.mark_messages (message_id ∷ []) timestamp chat sender))))

  unfoldable pub adapter_send_chat_presence :
      String → String → Adapter M → Result (Unit {0}) × Adapter M
  unfolding presence_of
  adapter_send_chat_presence chat_jid state = guarded (
      given (parsed M "parse chat_jid: " chat_jid) (λ to.
        given (or_unsupported "waclient: unsupported presence state" (presence_of state))
          (λ presence. call "send chat presence: " (M.send_presence to presence))))
