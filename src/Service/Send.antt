-- ===== src/Service/Send.antt =====
-- internal/service/service.go: `SendText`, `SendMedia` and `GetMediaRef`.
pub mod Guards
pub mod Persistence
use whatsmeow_api.Prelude.{
  ℕ, String, Bool, not, ◌&&◌, Option, none, some, List, [], ◌∷◌, len, length, ltb, eqb, ◌==◌,
  if◌then◌else◌,
}
use whatsmeow_api.Text.{is_blank}
use whatsmeow_api.Errors.{Result, ok, err, Error, invalid_request}
use whatsmeow_api.Store.{Message, MediaRef}
use whatsmeow_api.Store.Bundle.{Bundle}
use whatsmeow_api.Waclient.{Sent}
use whatsmeow_api.Waclient.Client.{WaClient}
use whatsmeow_api.Service.World.{MediaDisk, World, attempt, touch_chat, max_text_len}

pub record SendMediaRequest : Type 0 where
  pub chat_jid : String
  pub kind : String
  pub caption : String
  pub filename : String
  pub mime : String
  pub body : List ℕ

abbrev pub sent_message : String → String → String → String → Sent → Message
sent_message chat_jid kind body reply_to sent = record {
  id = sent.id;
  chat_jid = chat_jid;
  sender_jid = sent.sender_jid;
  timestamp = sent.timestamp;
  kind = kind;
  body = body;
  reply_to = reply_to;
  edited_at = none;
  deleted_at = none;
  raw_meta = "";
}

-- The media row is written only if the file was.
abbrev pub media_row_of : String → SendMediaRequest → Result (String × String) → Option MediaRef
media_row_of id req (err e) = none
media_row_of id req (ok (sha, path)) =
    if path == ""
    then none
    else some (record {
      message_id = id;
      mime = req.mime;
      size = length req.body;
      sha256 = sha;
      path = path;
    })

-- The first check that a request fails.
unfoldable pub media_problem : SendMediaRequest → Option Error
media_problem req =
    if is_blank req.chat_jid
    then some (invalid_request "chat_jid is required")
    else if eqb (length req.body) 0
    then some (invalid_request "body is required")
    else if is_blank req.mime
    then some (invalid_request "mime is required")
    else if not (req.kind == "image") && not (req.kind == "document")
    then some (invalid_request "kind must be image or document")
    else if req.kind == "document" && is_blank req.filename
    then some (invalid_request "filename is required for documents")
    else if ltb max_text_len (len req.caption)
    then some (invalid_request "caption exceeds 4096 bytes")
    else none

module _ {B : Bundle} {W : WaClient} {D : MediaDisk} where
  unfoldable pub persist_text :
      String → String → String → World B W D → Result Sent → Result Message × World B W D
  unfolding touch_chat
  persist_text chat_jid text reply_to w (err e) = (err e, w)
  persist_text chat_jid text reply_to w (ok sent) =
      let msg = sent_message chat_jid "text" text reply_to sent in
      (ok msg, touch_chat chat_jid sent.timestamp (attempt (B.messages_put msg) w))

  unfoldable pub send_text : String → String → String → World B W D → Result Message × World B W D
  unfolding persist_text
  send_text chat_jid text reply_to w =
      if is_blank chat_jid
      then (err (invalid_request "chat_jid is required"), w)
      else if text == ""
      then (err (invalid_request "text is required"), w)
      else if ltb max_text_len (len text)
      then (err (invalid_request "text exceeds 4096 bytes"), w)
      else let (sent, net) = W.send_text chat_jid text reply_to w.net in
        persist_text chat_jid text reply_to (record w { net = net }) sent

  abbrev put_media_row : Option MediaRef → World B W D → World B W D
  put_media_row none w = w
  put_media_row (some ref) w = attempt (B.media_put ref) w

  unfoldable pub persist_media :
      SendMediaRequest → World B W D → Result Sent → Result Message × World B W D
  unfolding touch_chat
  persist_media req w (err e) = (err e, w)
  persist_media req w (ok sent) =
      let (written, disk) = D.write req.body req.mime w.disk in
      let msg = sent_message req.chat_jid req.kind req.caption "" sent in
      let w1 : World B W D = attempt (B.messages_put msg) (record w { disk = disk }) in
      let w2 : World B W D = put_media_row (media_row_of sent.id req written) w1 in
      (ok msg, touch_chat req.chat_jid sent.timestamp w2)

  abbrev unless :
      Option Error → Result Message × World B W D → World B W D → Result Message × World B W D
  unless (some e) rest w = (err e, w)
  unless none rest w = rest

  unfoldable pub send_media : SendMediaRequest → World B W D → Result Message × World B W D
  unfolding persist_media media_problem
  send_media req w =
      let rest =
        let (sent, net) =
          W.send_media req.chat_jid req.kind req.caption req.filename req.mime req.body w.net in
        persist_media req (record w { net = net }) sent in
      unless (media_problem req) rest w

  unfoldable pub get_media_ref : String → World B W D → Result MediaRef
  get_media_ref message_id w =
      if is_blank message_id
      then err (invalid_request "message_id is required")
      else B.media_get_by_message_id message_id w.store
