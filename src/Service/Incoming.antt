-- ===== src/Service/Incoming.antt =====
-- internal/service/service.go: `handleIncoming`, `downloadAndPersistMedia` and `handleReceipt`, the
-- handlers of what arrives from WhatsApp.
pub mod Rows
pub mod Plain
pub mod Revoked
pub mod Received
use whatsmeow_api.Prelude.{
  ℕ, ◌+◌, String, Bool, true, false, not, ◌||◌, Option, none, some, List, [], ◌∷◌, ◌++◌, length,
  ◌==◌, if◌then◌else◌,
}
use whatsmeow_api.Time.{Time}
use whatsmeow_api.Errors.{Result, ok, err, is_ok}
use whatsmeow_api.Store.{Chat, Message, MediaRef, Contact}
use whatsmeow_api.Store.Bundle.{Bundle}
use whatsmeow_api.Waclient.{IncomingMessage, IncomingReceipt, Downloader}
use whatsmeow_api.Waclient.Client.{WaClient}
use whatsmeow_api.Service.World.{MediaDisk, World, attempt, or_else, new_chat}
use whatsmeow_api.Service.Emitter.{emit}
use whatsmeow_api.Service.Payloads.{
  build_message_received_payload, build_message_edited_payload, build_message_deleted_payload,
  build_reaction_received_payload, build_receipt_received_payload,
}

abbrev pub no_media : MediaRef
no_media = record { message_id = ""; mime = ""; size = 0; sha256 = ""; path = "" }

-- The chat row after one more incoming message.
abbrev pub counted : IncomingMessage → Result Chat → Chat
counted msg found =
    let chat = or_else (new_chat msg.chat_jid msg.chat_kind) found in
    record chat {
      kind = if chat.kind == "" then msg.chat_kind else chat.kind;
      last_msg_at = msg.timestamp;
      unread_count = chat.unread_count + 1;
    }

abbrev pub received_message : IncomingMessage → Message
received_message msg = record {
  id = msg.id;
  chat_jid = msg.chat_jid;
  sender_jid = msg.sender_jid;
  timestamp = msg.timestamp;
  kind = msg.kind;
  body = msg.body;
  reply_to = "";
  edited_at = none;
  deleted_at = none;
  raw_meta = "";
}

abbrev pub pushed_contact : IncomingMessage → Contact
pushed_contact msg = record {
  jid = msg.sender_jid;
  push_name = msg.push_name;
  full_name = "";
  business_name = "";
}

module _ {B : Bundle} {W : WaClient} {D : MediaDisk} where
  -- What a handler does when its write succeeded, and when it failed.
  abbrev pub stored : Result B.State → World B W D → (World B W D → World B W D) → World B W D
  stored (err e) w next = w
  stored (ok s) w next = next (record w { store = s })

  unfoldable pub handle_reaction : IncomingMessage → World B W D → World B W D
  handle_reaction msg w =
      let write =
        if msg.reaction_emoji == ""
        then B.reactions_delete msg.reaction_target_id msg.sender_jid w.store
        else B.reactions_put
            (record {
              message_id = msg.reaction_target_id;
              sender_jid = msg.sender_jid;
              emoji = msg.reaction_emoji;
              timestamp = msg.timestamp;
            })
            w.store in
      stored write w (
        emit "reaction.received" (
          build_reaction_received_payload msg.reaction_target_id msg.sender_jid msg.reaction_emoji
            msg.timestamp))

  unfoldable pub handle_revoke : IncomingMessage → World B W D → World B W D
  handle_revoke msg w =
      stored (B.messages_soft_delete msg.revoke_of_id msg.timestamp w.store) w (
        emit "message.deleted"
          (build_message_deleted_payload msg.revoke_of_id msg.chat_jid w.clock))

  unfoldable pub apply_edit : IncomingMessage → World B W D → Result Message → World B W D
  apply_edit msg w (err e) = w
  apply_edit msg w (ok existing) =
      stored
        (B.messages_put (record existing { body = msg.body; edited_at = some msg.timestamp })
          w.store)
        w
        (emit "message.edited"
          (build_message_edited_payload msg.edit_of_id msg.chat_jid msg.body w.clock))

  abbrev pub spawn : String → Option Downloader → World B W D → World B W D
  spawn id none w = w
  spawn id (some d) w = record w { spawned = w.spawned ++ ((id, d) ∷ []) }

  unfoldable pub put_contact : IncomingMessage → World B W D → World B W D
  put_contact msg w =
      if msg.push_name == "" then w else attempt (B.contacts_put (pushed_contact msg)) w

  unfoldable pub count_chat : IncomingMessage → World B W D → World B W D
  count_chat msg w = attempt (B.chats_put (counted msg (B.chats_get msg.chat_jid w.store))) w

  unfoldable pub handle_message : IncomingMessage → World B W D → World B W D
  unfolding put_contact count_chat
  handle_message msg w =
      let w1 = count_chat msg (put_contact msg w) in
      stored (B.messages_put (received_message msg) w1.store) w1 (λ w2.
        emit "message.received" (build_message_received_payload msg no_media)
          (spawn msg.id msg.media_downloader w2))

  -- Reactions come first, then revokes, then edits, then messages.
  unfoldable pub handle_incoming : IncomingMessage → World B W D → World B W D
  unfolding handle_reaction handle_revoke apply_edit handle_message
  handle_incoming msg w =
      if not (msg.reaction_target_id == "")
      then handle_reaction msg w
      else if not (msg.revoke_of_id == "")
      then handle_revoke msg w
      else if not (msg.edit_of_id == "")
      then apply_edit msg w (B.messages_get msg.edit_of_id w.store)
      else handle_message msg w

  abbrev media_written :
      String → List ℕ → String → World B W D → Result (String × String) → World B W D
  media_written id body mime w (err e) = w
  media_written id body mime w (ok (sha, path)) =
      attempt
        (B.media_put
          (record { message_id = id; mime = mime; size = length body; sha256 = sha; path = path }))
        w

  abbrev downloaded : String → World B W D → Result (List ℕ × String) → World B W D
  downloaded id w (err e) = w
  downloaded id w (ok (body, mime)) =
      let (written, disk) = D.write body mime w.disk in
      media_written id body mime (record w { disk = disk }) written

  -- The body of one goroutine.
  unfoldable pub download_and_persist_media : String → Downloader → World B W D → World B W D
  download_and_persist_media id d w = downloaded id w (W.download d w.net)

  -- The loop over the ids of a receipt: the world, and whether any row was written.
  unfoldable pub put_receipts : IncomingReceipt → List String → World B W D → World B W D × Bool
  put_receipts r [] w = (w, false)
  put_receipts r (id ∷ ids) w =
      let written =
        B.receipts_put
          (record {
            message_id = id;
            reader_jid = r.reader_jid;
            type = r.type;
            timestamp = r.timestamp;
          })
          w.store in
      let (w', any) = put_receipts r ids (record w { store = or_else w.store written }) in
      (w', is_ok written || any)

  unfoldable pub handle_receipt : IncomingReceipt → World B W D → World B W D
  unfolding put_receipts
  handle_receipt r w =
      let (w', any_persisted) = put_receipts r r.message_ids w in
      if any_persisted then emit "receipt.received" (build_receipt_received_payload r) w' else w'
