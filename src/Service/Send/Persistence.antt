-- ===== src/Service/Send/Persistence.antt =====
-- What a sent message leaves in the SQLite store. The foreign key from messages to chats decides:
-- `SendText` writes the message before the chat.
use whatsmeow_api.Prelude.{◌≡◌, refl, ◌∙◌, ap, String, true, false, eq_self}
use whatsmeow_api.Errors.{Result, ok, err, is_ok}
use whatsmeow_api.Store.{Message}
use whatsmeow_api.Sqlite.Tables.{Db, has_chat}
use whatsmeow_api.Sqlite.Store.{Engine, bundle}
use whatsmeow_api.Sqlite.Chats
use whatsmeow_api.Sqlite.Messages
use whatsmeow_api.Sqlite.RoundTrip.{stored_message, messages_get-put, messages_put-is_ok}
use whatsmeow_api.Waclient.{Sent}
use whatsmeow_api.Waclient.Client.{WaClient}
use whatsmeow_api.Service.World.{MediaDisk, World, or_else}
use whatsmeow_api.Service.Send.{sent_message, persist_text, send_text}
use whatsmeow_api.Service.Send.Guards.{IsSendable, send_text_sendable}

put_known :
    (m : Message) (db : Db)
    → has_chat m.chat_jid db ≡ true
    → Messages.get m.id (or_else db (Messages.put m db)) ≡ ok (stored_message m)
put_known m db known = go (Messages.put m db) refl put_ok
  where
    put_ok : is_ok (Messages.put m db) ≡ true
    put_ok = messages_put-is_ok m db known

    go :
        (r : Result Db)
        → Messages.put m db ≡ r
        → is_ok r ≡ true
        → Messages.get m.id (or_else db r) ≡ ok (stored_message m)
    go (ok db') e _ = messages_get-put m m.id db e ∙ rw eq_self refl
    go (err x) e h = absurd (cc)

put_unknown :
    (m : Message) (db : Db) → has_chat m.chat_jid db ≡ false → or_else db (Messages.put m db) ≡ db
unfolding Messages.put
put_unknown m db unknown = rw unknown refl

module _ (g : Engine) {W : WaClient} {D : MediaDisk} where
  module _ (w : World (bundle g) W D) (chat_jid text reply_to : String)
      (sendable : IsSendable chat_jid text) (sent : Sent)
      (answered : (W.send_text chat_jid text reply_to w.net).0 ≡ ok sent) where
    abbrev msg : Message
    msg = sent_message chat_jid "text" text reply_to sent

    -- The chat is written after the message and leaves the messages alone.
    message_after :
        Messages.get sent.id (send_text chat_jid text reply_to w).1.store
        ≡ Messages.get sent.id (or_else w.store (Messages.put msg w.store))
    unfolding persist_text Chats.put Messages.get
    message_after = rw (send_text_sendable w chat_jid text reply_to sendable, answered) refl

    -- On the SQLite store, a sendable text that WhatsApp accepts, for a chat that the store knows,
    -- is stored as it was sent, up to fractions of a second.
    pub send_text-stored :
        has_chat chat_jid w.store ≡ true
        → Messages.get sent.id (send_text chat_jid text reply_to w).1.store
          ≡ ok (stored_message (sent_message chat_jid "text" text reply_to sent))
    send_text-stored known = message_after ∙ put_known msg w.store known

    -- On the SQLite store, a sendable text that WhatsApp accepts, for a chat that the store does
    -- not know yet, is reported as sent, and no row is stored for it: a reader of its id finds
    -- what it found before.
    pub send_text-lost :
        has_chat chat_jid w.store ≡ false
        → ((send_text chat_jid text reply_to w).0
            ≡ ok (sent_message chat_jid "text" text reply_to sent))
          × (Messages.get sent.id (send_text chat_jid text reply_to w).1.store
              ≡ Messages.get sent.id w.store)
    unfolding persist_text
    send_text-lost unknown = (
      rw (send_text_sendable w chat_jid text reply_to sendable, answered) refl,
      message_after ∙ ap (Messages.get sent.id) (put_unknown msg w.store unknown),
    )
