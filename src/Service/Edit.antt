-- ===== src/Service/Edit.antt =====
-- internal/service/service.go: `EditMessage`, `DeleteMessage` and `ownsMessage`.
pub mod Ownership
use whatsmeow_api.Prelude.{
  String, Bool, true, false, Option, none, some, len, ltb, ◌==◌, if◌then◌else◌,
}
use whatsmeow_api.Text.{is_blank}
use whatsmeow_api.Errors.{Result, ok, err, invalid_request, forbidden}
use whatsmeow_api.Store.{Message}
use whatsmeow_api.Store.Bundle.{Bundle}
use whatsmeow_api.Waclient.{Sent, Status}
use whatsmeow_api.Waclient.Client.{WaClient}
use whatsmeow_api.Service.World.{MediaDisk, World, attempt, max_text_len}

abbrev pub is_jid : Option String → String → Bool
is_jid none jid = false
is_jid (some ours) jid = ours == jid

abbrev pub is_deleted : Message → Bool
is_deleted m = elim m.deleted_at [ none ↦ false | some t ↦ true ]

-- The message as the edit leaves it.
abbrev pub edited : Message → String → Sent → Message
edited m new_text sent = record m { body = new_text; edited_at = some sent.timestamp }

module _ {B : Bundle} {W : WaClient} {D : MediaDisk} where
  unfoldable pub owns_message : World B W D → Message → Bool
  owns_message w m = is_jid (W.status w.net).jid m.sender_jid

  unfoldable pub persist_edit :
      Message → String → World B W D → Result Sent → Result Message × World B W D
  persist_edit existing new_text w (err e) = (err e, w)
  persist_edit existing new_text w (ok sent) =
      let existing' = edited existing new_text sent in
      (ok existing', attempt (B.messages_put existing') w)

  unfoldable pub edit_found :
      String → String → World B W D → Result Message → Result Message × World B W D
  unfolding persist_edit owns_message
  edit_found message_id new_text w (err e) = (err e, w)
  edit_found message_id new_text w (ok existing) =
      if owns_message w existing
      then (if is_deleted existing
          then (err (forbidden "message is deleted"), w)
          else let (sent, net) = W.send_edit existing.chat_jid message_id new_text w.net in
            persist_edit existing new_text (record w { net = net }) sent)
      else (err (forbidden "not the message sender"), w)

  unfoldable pub edit_message : String → String → World B W D → Result Message × World B W D
  unfolding edit_found
  edit_message message_id new_text w =
      if is_blank message_id
      then (err (invalid_request "message_id is required"), w)
      else if new_text == ""
      then (err (invalid_request "text is required"), w)
      else if ltb max_text_len (len new_text)
      then (err (invalid_request "text exceeds 4096 bytes"), w)
      else edit_found message_id new_text w (B.messages_get message_id w.store)

  unfoldable pub persist_delete :
      String → World B W D → Result Sent → Result (Unit {0}) × World B W D
  persist_delete message_id w (err e) = (err e, w)
  persist_delete message_id w (ok _) =
      (ok tt, attempt (B.messages_soft_delete message_id w.clock) w)

  unfoldable pub delete_found :
      String → World B W D → Result Message → Result (Unit {0}) × World B W D
  unfolding persist_delete owns_message
  delete_found message_id w (err e) = (err e, w)
  delete_found message_id w (ok existing) =
      if owns_message w existing
      then (if is_deleted existing
          then (err (forbidden "already deleted"), w)
          else let (sent, net) = W.send_revoke existing.chat_jid message_id w.net in
            persist_delete message_id (record w { net = net }) sent)
      else (err (forbidden "not the message sender"), w)

  unfoldable pub delete_message : String → World B W D → Result (Unit {0}) × World B W D
  unfolding delete_found
  delete_message message_id w =
      if is_blank message_id
      then (err (invalid_request "message_id is required"), w)
      else delete_found message_id w (B.messages_get message_id w.store)
