-- ===== src/Postgres/Answers.antt =====
-- internal/store/postgres and internal/store/sqlite: what a caller of the two stores can see.
use whatsmeow_api.Prelude.{
  ℕ, ◌+◌, ◌≡◌, refl, sym, subst, ap, ◌∙◌, String, Bool, true, false, not, Option, none, some, List,
  [], ◌∷◌, map, keep, length, arith, All, ◌==◌, length-map, eqb, if◌then◌else◌,
}
use mathlib.Core.Option
use whatsmeow_api.Time.{Time, unix, whole_seconds}
use whatsmeow_api.Errors.{Result, ok, err, failure}
use whatsmeow_api.Store.{Chat}
use whatsmeow_api.Table
use whatsmeow_api.Table.Views.{find-seen}
use whatsmeow_api.Sqlite.Tables.{Db, empty_db, chat_key, message_key, bool_to_int, is_some}
use whatsmeow_api.Sqlite.Chats
use whatsmeow_api.Sqlite.Messages
use whatsmeow_api.Sqlite.Contacts
use whatsmeow_api.Sqlite.Media
use whatsmeow_api.Sqlite.Kv
use whatsmeow_api.Sqlite.Consistency.{Statement, run}
use whatsmeow_api.Postgres.Tables.{
  PgChat, PgMessage, PgDb, PgEngine, pg_chat_key, pg_message_key, is_text, taken,
}
use whatsmeow_api.Postgres.Chats.{
  scan_pg_chat, pg_chat_found, pg_chats_get, pg_chats_put, pg_chats_count, pg_sum_unread,
  pg_total_unread, time_of,
}
use whatsmeow_api.Postgres.Messages.{
  scan_pg_message, pg_message_found, pg_messages_get, pg_messages_count, pg_is_live,
}
use whatsmeow_api.Postgres.Parts.{pg_contacts_get, pg_contacts_count, pg_media_get, pg_kv_get}
use whatsmeow_api.Postgres.Seconds.{
  chat_seen, message_seen, view, empty_pg, pg_run, in_range, is_usual, in_seconds, chat_in_seconds,
  message_in_seconds,
}
use whatsmeow_api.Postgres.Refines.{run-view}

time_seen : (o : Option Time) → Chats.scan_time (Option.map unix o) ≡ whole_seconds (time_of o)
time_seen none = refl
time_seen (some t) = refl

archived_seen : (b : Bool) → not (eqb (bool_to_int b) 0) ≡ b
archived_seen true = refl
archived_seen false = refl

scan_chat-seen : (r : PgChat) → Chats.scan_chat (chat_seen r) ≡ chat_in_seconds (scan_pg_chat r)
unfolding Chats.scan_chat scan_pg_chat
scan_chat-seen r = cc (time_seen r.last_msg_at, archived_seen r.archived)

ptr_seen : (o : Option Time) → Messages.scan_ptr (Option.map unix o) ≡ Option.map whole_seconds o
ptr_seen none = refl
ptr_seen (some t) = refl

scan_message-seen :
    (r : PgMessage)
    → Messages.scan_message (message_seen r) ≡ message_in_seconds (scan_pg_message r)
unfolding Messages.scan_message scan_pg_message
scan_message-seen r = cc (ptr_seen r.edited_at, ptr_seen r.deleted_at)

in_seconds-taken {ℓ} :
    {A : Type ℓ} (f : A → A) (b : Bool) (r q : Result A)
    → in_seconds f r ≡ q
    → in_seconds f (taken b r) ≡ taken b q
in_seconds-taken f true r q h = h
in_seconds-taken f false r q h = refl

chats_get-view :
    (jid : String) (db : PgDb)
    → in_seconds chat_in_seconds (pg_chats_get jid db)
      ≡ taken (is_text jid) (Chats.get jid (view db))
unfolding pg_chats_get Chats.get
chats_get-view jid db = in_seconds-taken chat_in_seconds (is_text jid) _ _ (
    found (Table.find pg_chat_key ◌==◌ jid db.chats)
    ∙ ap Chats.scan_found
        (sym (find-seen pg_chat_key chat_key ◌==◌ chat_seen (λ r. refl) jid db.chats)))
  where
    found :
        (o : Option PgChat)
        → in_seconds chat_in_seconds (pg_chat_found o) ≡ Chats.scan_found (Option.map chat_seen o)
    found none = refl
    found (some r) = ap ok (sym (scan_chat-seen r))

messages_get-view :
    (id : String) (db : PgDb)
    → in_seconds message_in_seconds (pg_messages_get id db)
      ≡ taken (is_text id) (Messages.get id (view db))
unfolding pg_messages_get Messages.get
messages_get-view id db = in_seconds-taken message_in_seconds (is_text id) _ _ (
    found (Table.find pg_message_key ◌==◌ id db.messages)
    ∙ ap Messages.scan_found
        (sym (find-seen pg_message_key message_key ◌==◌ message_seen (λ r. refl) id db.messages)))
  where
    found :
        (o : Option PgMessage)
        → in_seconds message_in_seconds (pg_message_found o)
          ≡ Messages.scan_found (Option.map message_seen o)
    found none = refl
    found (some r) = ap ok (sym (scan_message-seen r))

live_seen :
    (rs : List PgMessage)
    → length (keep Messages.is_live (map message_seen rs)) ≡ length (keep pg_is_live rs)
live_seen [] = refl
live_seen (r ∷ rs) = ground (arith, live_seen rs, live r.deleted_at)
  where
    live :
        (o : Option Time) → (if is_some (Option.map unix o) then false else true) ≡ not (is_some o)
    live none = refl
    live (some t) = refl

unread_seen : (rs : List PgChat) → Chats.sum_unread (map chat_seen rs) ≡ pg_sum_unread rs
unfolding Chats.sum_unread pg_sum_unread
unread_seen [] = refl
unread_seen (r ∷ rs) = omega (arith, unread_seen rs)

-- What the lookups and the counts of the two stores answer. A lookup of a text with a NUL is refused
-- by PostgreSQL.
pub record AnswersAlike (pg : PgDb) (db : Db) : Type 0 where
  pub chat :
      (jid : String)
      → in_seconds chat_in_seconds (pg_chats_get jid pg) ≡ taken (is_text jid) (Chats.get jid db)
  pub message :
      (id : String)
      → in_seconds message_in_seconds (pg_messages_get id pg)
        ≡ taken (is_text id) (Messages.get id db)
  pub contact : (jid : String) → pg_contacts_get jid pg ≡ taken (is_text jid) (Contacts.get jid db)
  pub media :
      (id : String) → pg_media_get id pg ≡ taken (is_text id) (Media.get_by_message_id id db)
  pub value : (key : String) → pg_kv_get key pg ≡ taken (is_text key) (Kv.get key db)
  pub chats : pg_chats_count pg ≡ Chats.chats_count db
  pub unread : pg_total_unread pg ≡ Chats.total_unread db
  pub messages : pg_messages_count pg ≡ Messages.messages_count db
  pub contacts : pg_contacts_count pg ≡ Contacts.contacts_count db

view-AnswersAlike : (db : PgDb) → AnswersAlike db (view db)
unfolding pg_contacts_get Contacts.get pg_media_get Media.get_by_message_id pg_kv_get Kv.get
    pg_chats_count Chats.chats_count pg_total_unread Chats.total_unread pg_messages_count
    Messages.messages_count pg_contacts_count Contacts.contacts_count
view-AnswersAlike db = record {
  chat = λ jid. chats_get-view jid db;
  message = λ id. messages_get-view id db;
  contact = λ jid. refl;
  media = λ id. refl;
  value = λ key. refl;
  chats = ap ok (sym (length-map chat_seen db.chats));
  unread = ap ok (sym (unread_seen db.chats));
  messages = ap ok (sym (live_seen db.messages));
  contacts = refl;
}

module _ (g : PgEngine) (c : Chat) (n : ℕ) (db : PgDb) where
  too_many_refused :
      pg_chats_put g (record c { unread_count = 2147483648 + n }) db
      ≡ err (failure "a value is refused")
  unfolding pg_chats_put
  too_many_refused = ground arith

-- After any sequence of writes whose values PostgreSQL takes, with instants until the year 9999 and
-- no message that points to the zero time, on a server whose TIMESTAMPTZ keeps the second of such an
-- instant, the PostgreSQL store answers a lookup of a chat, a message, a contact, an attachment or a
-- key, and the counts, as the SQLite store does after the same writes, with instants in whole
-- seconds, except that it refuses to look up a text with a NUL. It takes a text without a NUL for
-- which its indices have room, and an unread count that is a 32-bit integer; a chat with more unread
-- messages than that is refused.
pub pg_run-AnswersAlike :
    (g : PgEngine)
    → ((t : Time) → in_range t ≡ true → unix (g.kept t) ≡ unix t)
    → (ss : List Statement) → All (λ s. is_usual g s ≡ true) ss
    → AnswersAlike (pg_run g ss empty_pg) (run ss empty_db)
      × ((c : Chat) (n : ℕ) (db : PgDb)
          → pg_chats_put g (record c { unread_count = 2147483648 + n }) db
            ≡ err (failure "a value is refused"))
pg_run-AnswersAlike g whole ss usual = (
  subst (AnswersAlike (pg_run g ss empty_pg)) (run-view g whole ss empty_pg usual)
      (view-AnswersAlike (pg_run g ss empty_pg)),
  too_many_refused g,
)
