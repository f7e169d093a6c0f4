-- ===== src/Service/Incoming/Revoked.antt =====
-- An incoming revoke, on the SQLite store. `handleIncoming` does not compare its sender with that of
-- the message.
use whatsmeow_api.Prelude.{◌≡◌, refl, ◌∙◌, String, false, ◌==◌, if◌then◌else◌}
use whatsmeow_api.Sqlite.Store.{Engine, bundle}
use whatsmeow_api.Sqlite.Messages
use whatsmeow_api.Sqlite.RoundTrip.{marked, map_ok, messages_get-soft_delete}
use whatsmeow_api.Waclient.{IncomingMessage}
use whatsmeow_api.Waclient.Client.{WaClient}
use whatsmeow_api.Service.World.{MediaDisk, World}
use whatsmeow_api.Service.Payloads.{build_message_deleted_payload}
use whatsmeow_api.Service.Incoming.{handle_incoming}
use whatsmeow_api.Service.Incoming.Rows.{emit-chats, get_of_messages}

module _ (g : Engine) {W : WaClient} {D : MediaDisk} (msg : IncomingMessage)
    (w : World (bundle g) W D) where
  -- On the SQLite store, a revoke, whoever sent it, marks the message that it names as deleted at
  -- the revoke's instant, to the second, if that message is stored, and leaves every other message
  -- as it was.
  pub handle_incoming-revoked :
      msg.reaction_target_id ≡ ""
      → (msg.revoke_of_id == "") ≡ false
      → (id : String)
      → Messages.get id (handle_incoming msg w).store ≡ (
          if msg.revoke_of_id == id
          then map_ok (marked msg.timestamp) (Messages.get id w.store)
          else Messages.get id w.store)
  unfolding handle_incoming Messages.soft_delete
  handle_incoming-revoked no_reaction revoke id =
      rw (no_reaction, revoke)
        (get_of_messages id _ _
            (emit-chats g "message.deleted"
              (build_message_deleted_payload msg.revoke_of_id msg.chat_jid w.clock) _).1
          ∙ messages_get-soft_delete msg.timestamp msg.revoke_of_id id w.store refl)
