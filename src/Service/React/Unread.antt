-- ===== src/Service/React/Unread.antt =====
-- Marking a message as read, on the SQLite store.
use whatsmeow_api.Prelude.{
  ◌-◌, ◌≡◌, refl, ◌∙◌, ap, sym, String, false, ltb, arith, ◌==◌, eq_self, if◌then◌else◌,
  Option-cases, Bool-cases, inl, inr,
}
use whatsmeow_api.Text.{is_blank}
use whatsmeow_api.Errors.{ok, ok-injective}
use whatsmeow_api.Store.{Chat, Message}
use whatsmeow_api.Table
use whatsmeow_api.Sqlite.Tables.{Db, ChatRow, chat_key}
use whatsmeow_api.Sqlite.Store.{Engine, bundle}
use whatsmeow_api.Sqlite.Chats
use whatsmeow_api.Sqlite.Messages
use whatsmeow_api.Sqlite.RoundTrip.{stored_chat, chats_get-put}
use whatsmeow_api.Waclient.Client.{WaClient}
use whatsmeow_api.Service.World.{MediaDisk, World}
use whatsmeow_api.Service.React.{count_down, mark_message_read}
use whatsmeow_api.Service.Incoming.Rows.{found-jid}

-- What was read from the store has whole seconds already.
scan_chat-stored : (r : ChatRow) → stored_chat (Chats.scan_chat r) ≡ Chats.scan_chat r
unfolding Chats.scan_chat
scan_chat-stored r = ground arith

found-stored : (jid : String) (db : Db) (c : Chat) → Chats.get jid db ≡ ok c → stored_chat c ≡ c
unfolding Chats.get
found-stored jid db c h = elim (Option-cases (Table.find chat_key ◌==◌ jid db.chats)) [
  | inl missing ↦ absurd (cc)
  | inr (r, found) ↦
      let same : ok (Chats.scan_chat r) ≡ ok c = rw found at h in
      sym (ap stored_chat (ok-injective same)) ∙ scan_chat-stored r ∙ ok-injective same
]

module _ (g : Engine) {W : WaClient} {D : MediaDisk} where
  -- One unread message less, and no fewer than none.
  count_down-get :
      (c : Chat) (jid : String) (w : World (bundle g) W D)
      → Chats.get jid w.store ≡ ok c
      → Chats.get jid (count_down (ok c) w).store
        ≡ ok (record c { unread_count = c.unread_count - 1 })
  unfolding count_down Chats.put
  count_down-get c jid w h = elim (Bool-cases (ltb 0 c.unread_count)) [
    | inr none_unread ↦
        let same : c.unread_count ≡ c.unread_count - 1 = ground arith in
        rw none_unread (h ∙ ap (λ n. ok (record c { unread_count = n })) same)
    | inl some_unread ↦
        let less = record c { unread_count = c.unread_count - 1 } in
        rw some_unread (
          chats_get-put less jid w.store refl
          ∙ ap (λ j. if j == jid then ok (stored_chat less) else Chats.get jid w.store)
              (found-jid jid w.store c h)
          ∙ rw (eq_self jid) (
              ap (λ t. ok (record less { last_msg_at = t }))
                (ap Chat.last_msg_at (found-stored jid w.store c h))))
  ]

  module _ (w : World (bundle g) W D) (id : String) (m : Message) (c : Chat) where
    -- On the SQLite store, whoever marks a stored message as read, and is not refused by WhatsApp,
    -- has one unread message less in the message's chat, and none less where there was none; the
    -- rest of the chat is as it was.
    pub mark_message_read-counted :
        is_blank id ≡ false
        → Messages.get id w.store ≡ ok m
        → (W.mark_read m.chat_jid m.sender_jid id w.clock w.net).0 ≡ ok tt
        → Chats.get m.chat_jid w.store ≡ ok c
        → ((mark_message_read id w).0 ≡ ok tt)
          × (Chats.get m.chat_jid (mark_message_read id w).1.store
              ≡ ok (record c { unread_count = c.unread_count - 1 }))
    unfolding mark_message_read
    mark_message_read-counted named stored accepted chat =
        rw (named, stored, accepted, chat)
          (refl, count_down-get c m.chat_jid (record w { net = _ }) chat)
