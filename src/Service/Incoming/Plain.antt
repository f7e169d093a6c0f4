-- ===== src/Service/Incoming/Plain.antt =====
-- An incoming message that is no reaction, revoke or edit, on the SQLite store: it is stored and
-- counted, whatever was there before.
use whatsmeow_api.Time.{whole_seconds}
use whatsmeow_api.Prelude.{
  ℕ, ◌+◌, Bool, false, ◌≡◌, refl, ◌∙◌, ap, String, true, some, eq_iff, eq_self, ◌==◌, if◌then◌else◌,
  Bool-cases, inl, inr,
}
use whatsmeow_api.Errors.{Result, ok, err}
use whatsmeow_api.Store.{Chat}
use whatsmeow_api.Table
use whatsmeow_api.Table.Laws.{find-put}
use whatsmeow_api.Sqlite.Tables.{Db, has_chat, chat_key}
use whatsmeow_api.Sqlite.Store.{Engine, bundle}
use whatsmeow_api.Sqlite.Chats
use whatsmeow_api.Sqlite.Contacts
use whatsmeow_api.Sqlite.Messages
use whatsmeow_api.Sqlite.RoundTrip.{stored_message, stored_chat, messages_get-put, chats_get-put}
use whatsmeow_api.Waclient.{IncomingMessage}
use whatsmeow_api.Waclient.Client.{WaClient}
use whatsmeow_api.Service.World.{MediaDisk, World}
use whatsmeow_api.Service.Emitter.{emit}
use whatsmeow_api.Service.Payloads.{build_message_received_payload}
use whatsmeow_api.Service.Incoming.Rows.{
  found-jid, put_accepted, get_of_messages, get_of_chats, emit-chats, spawn-store,
}
use whatsmeow_api.Service.Incoming.{
  no_media, counted, received_message, spawn, put_contact, count_chat, handle_message,
  handle_incoming,
}

-- An ordinary message: none of the special targets is set.
pub record IsPlain (msg : IncomingMessage) : Type 0 where
  pub no_reaction : msg.reaction_target_id ≡ ""
  pub no_revoke : msg.revoke_of_id ≡ ""
  pub no_edit : msg.edit_of_id ≡ ""

-- The chat after a message came in, against what was known of it before.
abbrev unread_of : Result Chat → ℕ
unread_of (ok c) = c.unread_count
unread_of (err _) = 0

abbrev name_of : Result Chat → String
name_of (ok c) = c.name
name_of (err _) = ""

abbrev archived_of : Result Chat → Bool
archived_of (ok c) = c.archived
archived_of (err _) = false

pub record IsCounted (msg : IncomingMessage) (before : Result Chat) (after : Chat) : Type 0 where
  pub jid : after.jid ≡ msg.chat_jid
  pub one_more : after.unread_count ≡ unread_of before + 1
  pub last : after.last_msg_at ≡ whole_seconds msg.timestamp
  pub name : after.name ≡ name_of before
  pub archived : after.archived ≡ archived_of before

counted-jid :
    (msg : IncomingMessage) (db : Db) → (counted msg (Chats.get msg.chat_jid db)).jid ≡ msg.chat_jid
counted-jid msg db = go (Chats.get msg.chat_jid db) refl
  where
    go : (r : Result Chat) → Chats.get msg.chat_jid db ≡ r → (counted msg r).jid ≡ msg.chat_jid
    go (ok c) e = found-jid msg.chat_jid db c e
    go (err x) e = refl

counted-IsCounted :
    (msg : IncomingMessage) (db : Db)
    → IsCounted msg
        (Chats.get msg.chat_jid db)
        (stored_chat (counted msg (Chats.get msg.chat_jid db)))
counted-IsCounted msg db = go (Chats.get msg.chat_jid db) (counted-jid msg db)
  where
    go :
        (r : Result Chat)
        → (counted msg r).jid ≡ msg.chat_jid
        → IsCounted msg r (stored_chat (counted msg r))
    go (ok c) same = record {
      jid = same;
      one_more = refl;
      last = refl;
      name = refl;
      archived = refl;
    }
    go (err x) same = record {
      jid = same;
      one_more = refl;
      last = refl;
      name = refl;
      archived = refl;
    }

module _ (g : Engine) {W : WaClient} {D : MediaDisk} where
  put_contact-chats :
      (msg : IncomingMessage) (w : World (bundle g) W D)
      → ((put_contact msg w).store.chats ≡ w.store.chats)
        × ((put_contact msg w).store.messages ≡ w.store.messages)
  unfolding put_contact Contacts.put
  put_contact-chats msg w = elim (Bool-cases (msg.push_name == "")) [
    | inl none_given ↦ rw none_given (refl, refl)
    | inr given ↦ rw given (refl, refl)
  ]

  count_chat-find :
      (msg : IncomingMessage) (w : World (bundle g) W D)
      → Table.find chat_key ◌==◌ msg.chat_jid (count_chat msg w).store.chats
        ≡ some (Chats.chat_row (counted msg (Chats.get msg.chat_jid w.store)))
  unfolding count_chat Chats.put
  count_chat-find msg w =
      rw
        (
          find-put chat_key ◌==◌ eq_iff msg.chat_jid
              (Chats.chat_row (counted msg (Chats.get msg.chat_jid w.store))) w.store.chats,
          counted-jid msg w.store,
          eq_self msg.chat_jid,
        )
        refl

  module _ (msg : IncomingMessage) (w : World (bundle g) W D) where
    abbrev announced : World (bundle g) W D → World (bundle g) W D
    announced w2 =
        emit "message.received" (build_message_received_payload msg no_media)
          (spawn msg.id msg.media_downloader w2)

    abbrev recorded : World (bundle g) W D
    recorded = count_chat msg (put_contact msg w)

    -- A plain message ends with the announcement: its row is never refused.
    handle_message_lem :
        IsPlain msg
        → (db : Db) × (Messages.put (received_message msg) recorded.store ≡ ok db)
          × (db.chats ≡ recorded.store.chats)
          × (handle_incoming msg w ≡ announced (record recorded { store = db }))
    unfolding handle_incoming handle_message count_chat-find counted-jid
    handle_message_lem plain =
        let known : has_chat msg.chat_jid recorded.store ≡ true =
          rw (count_chat-find msg (put_contact msg w)) refl in
        let (db, put, chats) = put_accepted (received_message msg) recorded.store known in
        (db, put, chats, rw (plain.no_reaction, plain.no_revoke, plain.no_edit, put) refl)

    announced-tables :
        (w2 : World (bundle g) W D)
        → ((announced w2).store.chats ≡ w2.store.chats)
          × ((announced w2).store.messages ≡ w2.store.messages)
    announced-tables w2 =
        let (c, m) =
          emit-chats g "message.received" (build_message_received_payload msg no_media)
            (spawn msg.id msg.media_downloader w2) in
        let same = spawn-store g msg.id msg.media_downloader w2 in
        (c ∙ ap Db.chats same, m ∙ ap Db.messages same)

    recorded-get :
        Chats.get msg.chat_jid recorded.store
        ≡ ok (stored_chat (counted msg (Chats.get msg.chat_jid w.store)))
    unfolding count_chat Chats.put
    recorded-get =
        let before = (put_contact msg w).store in
        let same : Chats.get msg.chat_jid before ≡ Chats.get msg.chat_jid w.store =
          get_of_chats msg.chat_jid before w.store (put_contact-chats msg w).0 in
        let chat = counted msg (Chats.get msg.chat_jid before) in
        chats_get-put chat msg.chat_jid before refl
        ∙ ap
            (λ jid.
              if jid == msg.chat_jid then ok (stored_chat chat) else Chats.get msg.chat_jid before)
            (counted-jid msg before)
        ∙ rw (eq_self msg.chat_jid) (ap (λ r. ok (stored_chat (counted msg r))) same)

    -- On the SQLite store, every message that arrives and is no reaction, revoke or edit is stored
    -- as it came, up to fractions of a second, whether or not its chat was known.
    pub handle_incoming-stored :
        IsPlain msg
        → Messages.get msg.id (handle_incoming msg w).store
          ≡ ok (stored_message (received_message msg))
    handle_incoming-stored plain =
        let (db, put, chats, e) = handle_message_lem plain in
        rw e (
          get_of_messages msg.id _ _ (announced-tables (record recorded { store = db })).1
          ∙ messages_get-put (received_message msg) msg.id recorded.store put
          ∙ rw eq_self refl)

    chat_after :
        IsPlain msg
        → Chats.get msg.chat_jid (handle_incoming msg w).store
          ≡ ok (stored_chat (counted msg (Chats.get msg.chat_jid w.store)))
    chat_after plain =
        let (db, put, chats, e) = handle_message_lem plain in
        rw e (
          get_of_chats msg.chat_jid _ _
            ((announced-tables (record recorded { store = db })).0 ∙ chats)
          ∙ recorded-get)

    -- On the SQLite store, every message that arrives and is no reaction, revoke or edit is
    -- counted: its chat is stored afterwards, with the name and archived flag that it had, one
    -- more unread message, and the message's instant, to the second, as its last.
    pub handle_incoming-IsCounted :
        IsPlain msg
        → (c : Chat) × (Chats.get msg.chat_jid (handle_incoming msg w).store ≡ ok c)
          × IsCounted msg (Chats.get msg.chat_jid w.store) c
    handle_incoming-IsCounted plain = (
      stored_chat (counted msg (Chats.get msg.chat_jid w.store)),
      chat_after plain,
      counted-IsCounted msg w.store,
    )
