-- ===== src/Service/Incoming/Rows.antt =====
-- The chats and messages that the handlers of internal/service/service.go read and write, as rows of
-- the SQLite store.
use whatsmeow_api.Prelude.{
  ◌≡◌, refl, ◌∙◌, ap, sym, String, true, Option, none, some, eq_iff, ◌==◌, Option-cases, inl, inr,
}
use whatsmeow_api.Errors.{ok, ok-injective}
use whatsmeow_api.Json.{Json}
use whatsmeow_api.Store.{Message, Chat}
use whatsmeow_api.Table
use whatsmeow_api.Table.Laws.{find-key}
use whatsmeow_api.Sqlite.Tables.{Db, has_chat, chat_key, message_key}
use whatsmeow_api.Sqlite.Store.{Engine, bundle}
use whatsmeow_api.Sqlite.Chats
use whatsmeow_api.Sqlite.Messages
use whatsmeow_api.Sqlite.Events
use whatsmeow_api.Waclient.{Downloader}
use whatsmeow_api.Waclient.Client.{WaClient}
use whatsmeow_api.Service.World.{MediaDisk, World}
use whatsmeow_api.Service.Emitter.{emit}
use whatsmeow_api.Service.Incoming.{spawn}

pub found-jid : (jid : String) (db : Db) (c : Chat) → Chats.get jid db ≡ ok c → c.jid ≡ jid
unfolding Chats.get Chats.scan_chat
found-jid jid db c h = elim (Option-cases (Table.find chat_key ◌==◌ jid db.chats)) [
  | inl missing ↦ absurd (cc)
  | inr (r, found) ↦
      let same : ok (Chats.scan_chat r) ≡ ok c = rw found at h in
      sym (ap Chat.jid (ok-injective same))
      ∙ (eq_iff r.jid jid).0 (find-key chat_key ◌==◌ jid db.chats r found)
]

pub put_accepted :
    (m : Message) (db : Db)
    → has_chat m.chat_jid db ≡ true
    → (db' : Db) × (Messages.put m db ≡ ok db') × (db'.chats ≡ db.chats)
unfolding Messages.put
put_accepted m db known = (
  record db { messages = Table.put message_key ◌==◌ (Messages.message_row m) db.messages },
  rw known refl,
  refl,
)

pub get_of_messages :
    (id : String) (a b : Db) → a.messages ≡ b.messages → Messages.get id a ≡ Messages.get id b
unfolding Messages.get
get_of_messages id a b e = rw e refl

pub get_of_chats : (jid : String) (a b : Db) → a.chats ≡ b.chats → Chats.get jid a ≡ Chats.get jid b
unfolding Chats.get
get_of_chats jid a b e = rw e refl

module _ (g : Engine) {W : WaClient} {D : MediaDisk} where
  -- An event changes neither chats nor messages.
  pub emit-chats :
      (kind : String) (payload : Json) (w : World (bundle g) W D)
      → ((emit kind payload w).store.chats ≡ w.store.chats)
        × ((emit kind payload w).store.messages ≡ w.store.messages)
  unfolding emit Events.append
  emit-chats kind payload w = (refl, refl)

  pub spawn-store :
      (id : String) (o : Option Downloader) (w : World (bundle g) W D)
      → (spawn id o w).store ≡ w.store
  spawn-store id none w = refl
  spawn-store id (some d) w = refl
