-- ===== src/Postgres/Seconds.antt =====
-- A PostgreSQL store in whole seconds: what the SQLite store holds of the same writes.
use whatsmeow_api.Prelude.{ℕ, leb, Bool, true, not, ◌&&◌, Option, none, some, List, [], ◌∷◌, map}
use mathlib.Core.Option
use whatsmeow_api.Time.{Time, is_zero, unix, whole_seconds}
use whatsmeow_api.Errors.{Result, ok, err}
use whatsmeow_api.Store.{Chat, Message}
use whatsmeow_api.Sqlite.Tables.{
  ChatRow, MessageRow, EventRow, ReactionRow, ReceiptRow, Db, bool_to_int,
}
use whatsmeow_api.Sqlite.Consistency.{
  Statement, put_chat, set_archived, put_message, soft_delete, put_contact, put_media, append_event,
  set_kv, delete_kv, put_reaction, delete_reaction, put_receipt,
}
use whatsmeow_api.Postgres.Tables.{
  PgChat, PgMessage, PgEvent, PgReaction, PgReceipt, PgDb, PgEngine, is_text, are_texts, chat_fits,
  message_fits, contact_fits, media_fits, value_fits, reaction_fits, receipt_fits,
}
use whatsmeow_api.Postgres.Chats.{pg_chats_put, pg_set_archived}
use whatsmeow_api.Postgres.Messages.{pg_messages_put, pg_soft_delete}
use whatsmeow_api.Postgres.Parts.{
  pg_contacts_put, pg_media_put, pg_events_append, pg_kv_set, pg_kv_delete, pg_reactions_put,
  pg_reactions_delete, pg_receipts_put,
}

abbrev pub chat_seen : PgChat → ChatRow
chat_seen r = record {
  jid = r.jid;
  name = r.name;
  kind = r.kind;
  last_msg_at = Option.map unix r.last_msg_at;
  unread_count = r.unread_count;
  archived = bool_to_int r.archived;
}

abbrev pub message_seen : PgMessage → MessageRow
message_seen r = record {
  id = r.id;
  chat_jid = r.chat_jid;
  sender_jid = r.sender_jid;
  ts = unix r.ts;
  kind = r.kind;
  body = r.body;
  reply_to = r.reply_to;
  edited_at = Option.map unix r.edited_at;
  deleted_at = Option.map unix r.deleted_at;
  raw_meta = r.raw_meta;
}

abbrev pub event_seen : PgEvent → EventRow
event_seen r = record { seq = r.seq; ts = unix r.ts; type = r.type; payload = r.payload }

abbrev pub reaction_seen : PgReaction → ReactionRow
reaction_seen r = record {
  message_id = r.message_id;
  sender_jid = r.sender_jid;
  emoji = r.emoji;
  ts = unix r.ts;
}

abbrev pub receipt_seen : PgReceipt → ReceiptRow
receipt_seen r = record {
  message_id = r.message_id;
  reader_jid = r.reader_jid;
  type = r.type;
  ts = unix r.ts;
}

abbrev pub view : PgDb → Db
view db = record {
  chats = map chat_seen db.chats;
  messages = map message_seen db.messages;
  contacts = db.contacts;
  media = db.media;
  events_log = map event_seen db.events_log;
  last_seq = db.last_seq;
  kv = db.kv;
  reactions = map reaction_seen db.reactions;
  receipts = map receipt_seen db.receipts;
}

abbrev pub empty_pg : PgDb
empty_pg = record {
  chats = [];
  messages = [];
  contacts = [];
  media = [];
  events_log = [];
  last_seq = 0;
  kv = [];
  reactions = [];
  receipts = [];
}

abbrev pub appended : Result (ℕ × PgDb) → Result PgDb
appended (ok (_, db)) = ok db
appended (err e) = err e

-- A statement that fails changes nothing.
abbrev pub pg_or_same : PgDb → Result PgDb → PgDb
pg_or_same db (ok db') = db'
pg_or_same db (err _) = db

module _ (g : PgEngine) where
  unfoldable pub pg_exec : Statement → PgDb → Result PgDb
  pg_exec (put_chat c) = pg_chats_put g c
  pg_exec (set_archived jid a) = pg_set_archived jid a
  pg_exec (put_message m) = pg_messages_put g m
  pg_exec (soft_delete id t) = pg_soft_delete g id t
  pg_exec (put_contact c) = pg_contacts_put g c
  pg_exec (put_media m) = pg_media_put g m
  pg_exec (append_event e) = λ db. appended (pg_events_append g e db)
  pg_exec (set_kv k v) = pg_kv_set g k v
  pg_exec (delete_kv k) = pg_kv_delete k
  pg_exec (put_reaction r) = pg_reactions_put g r
  pg_exec (delete_reaction m s) = pg_reactions_delete m s
  pg_exec (put_receipt r) = pg_receipts_put g r

  unfoldable pub pg_run : List Statement → PgDb → PgDb
  unfolding pg_exec
  pg_run [] db = db
  pg_run (s ∷ ss) db = pg_run ss (pg_or_same db (pg_exec s db))

-- An instant that a message points to is not the zero time, which only PostgreSQL stores as NULL.
abbrev pub is_set : Option Time → Bool
is_set none = true
is_set (some t) = not (is_zero t)

-- The last second of the year 9999, the last year that RFC 3339 can write.
abbrev pub last_second : ℕ
last_second = 315537897599

abbrev pub in_range : Time → Bool
in_range t = leb t.sec last_second

abbrev pub ptr_in_range : Option Time → Bool
ptr_in_range none = true
ptr_in_range (some t) = in_range t

-- The values that a statement writes fit the columns of the PostgreSQL store, and its instants are
-- neither past the year 9999 nor, where a message points to them, the zero time.
abbrev pub is_usual : PgEngine → Statement → Bool
is_usual g (put_chat c) = chat_fits g c && in_range c.last_msg_at
is_usual g (set_archived jid a) = is_text jid
is_usual g (put_message m) =
    message_fits g m
    && (in_range m.timestamp
        && ((is_set m.edited_at && is_set m.deleted_at)
            && (ptr_in_range m.edited_at && ptr_in_range m.deleted_at)))
is_usual g (soft_delete id t) = is_text id && in_range t
is_usual g (put_contact c) = contact_fits g c
is_usual g (put_media m) = media_fits g m
is_usual g (append_event e) = is_text e.type && in_range e.time
is_usual g (set_kv k v) = value_fits g k v
is_usual g (delete_kv k) = is_text k
is_usual g (put_reaction r) = reaction_fits g r && in_range r.timestamp
is_usual g (delete_reaction m s) = are_texts (m ∷ s ∷ [])
is_usual g (put_receipt r) = receipt_fits g r && in_range r.timestamp

-- A value that was read, in whole seconds.
abbrev pub chat_in_seconds : Chat → Chat
chat_in_seconds c = record c { last_msg_at = whole_seconds c.last_msg_at }

abbrev pub message_in_seconds : Message → Message
message_in_seconds m = record m {
  timestamp = whole_seconds m.timestamp;
  edited_at = Option.map whole_seconds m.edited_at;
  deleted_at = Option.map whole_seconds m.deleted_at;
}

abbrev pub in_seconds {ℓ} : {A : Type ℓ} → (A → A) → Result A → Result A
in_seconds f (ok a) = ok (f a)
in_seconds f (err e) = err e
