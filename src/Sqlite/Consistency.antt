-- ===== src/Sqlite/Consistency.antt =====
-- The integrity of the SQLite app store: unique keys, no dangling references, and an event log
-- whose numbers only grow. Every statement keeps it.
pub mod Keys
pub mod Updates
use whatsmeow_api.Prelude.{
  ℕ, ◌+◌, ◌≤◌, ◌<◌, ◌≡◌, refl, String, Bool, true, false, Option, none, some, List, [], ◌∷◌, ◌++◌,
  arith, eq_iff, ◌==◌, if◌then◌else◌, All, All-mono, ap, Bool-cases, inl, inr,
}
use whatsmeow_api.Time.{Time, unix}
use whatsmeow_api.Errors.{Result, ok, err}
use whatsmeow_api.Store.{Chat, Message, Contact, MediaRef, Reaction, EventLogEntry, Receipt}
use whatsmeow_api.Table
use whatsmeow_api.Table.Laws.{
  IsUnique, put-IsUnique, modify-IsUnique, delete-IsUnique, All-put, All-modify, All-delete,
}
use whatsmeow_api.Sqlite.Tables.{
  Db, ChatRow, MessageRow, MediaRow, EventRow, ReactionRow, ReceiptRow, chat_key, message_key,
  contact_key, media_key, kv_key, reaction_key, receipt_key, pair_eq, triple_eq, has_chat,
  has_message, bool_to_int,
}
use whatsmeow_api.Sqlite.Chats
use whatsmeow_api.Sqlite.Messages
use whatsmeow_api.Sqlite.Contacts
use whatsmeow_api.Sqlite.Media
use whatsmeow_api.Sqlite.Events
use whatsmeow_api.Sqlite.Kv
use whatsmeow_api.Sqlite.Reactions
use whatsmeow_api.Sqlite.Receipts
use Updates.{
  IsConsistent, chats-IsConsistent, messages-IsConsistent, contacts-IsConsistent, kv-IsConsistent,
  media-IsConsistent, reactions-IsConsistent, receipts-IsConsistent, events-IsConsistent,
}
use Keys.{
  IsAscending, IsAscending-append, pair_eq_iff, triple_eq_iff, has_chat-put, has_message-put,
  has_chat-modify, has_message-modify,
}

-- A statement that writes.
pub data Statement : Type 0 where
  put_chat : Chat → Statement
  set_archived : String → Bool → Statement
  put_message : Message → Statement
  soft_delete : String → Time → Statement
  put_contact : Contact → Statement
  put_media : MediaRef → Statement
  append_event : EventLogEntry → Statement
  set_kv : String → String → Statement
  delete_kv : String → Statement
  put_reaction : Reaction → Statement
  delete_reaction : String → String → Statement
  put_receipt : Receipt → Statement

abbrev exec_append : Result (ℕ × Db) → Result Db
exec_append (ok (_, db)) = ok db
exec_append (err e) = err e

unfoldable pub exec : Statement → Db → Result Db
exec (put_chat c) = Chats.put c
exec (set_archived jid a) = Chats.set_archived jid a
exec (put_message m) = Messages.put m
exec (soft_delete id t) = Messages.soft_delete id t
exec (put_contact c) = Contacts.put c
exec (put_media m) = Media.put m
exec (append_event e) = λ db. exec_append (Events.append e db)
exec (set_kv k v) = Kv.set k v
exec (delete_kv k) = Kv.delete k
exec (put_reaction r) = Reactions.put r
exec (delete_reaction m s) = Reactions.delete m s
exec (put_receipt r) = Receipts.put r

-- A statement that fails changes nothing.
abbrev pub or_same : Db → Result Db → Db
or_same db (ok db') = db'
or_same db (err _) = db

unfoldable pub run : List Statement → Db → Db
unfolding exec
run [] db = db
run (s ∷ ss) db = run ss (or_same db (exec s db))

abbrev archive : Bool → ChatRow → ChatRow
archive a r = record r { archived = bool_to_int a }

abbrev mark : Time → MessageRow → MessageRow
mark t r = record r { deleted_at = some (unix t) }

put_message-IsConsistent :
    (m : Message) (db : Db) → IsConsistent db → IsConsistent (or_same db (Messages.put m db))
unfolding Messages.put
put_message-IsConsistent m db i = elim (Bool-cases (has_chat m.chat_jid db)) [
  | inr missing ↦ rw missing i
  | inl found ↦ rw found (
      messages-IsConsistent i _
        (put-IsUnique message_key ◌==◌ eq_iff (Messages.message_row m) db.messages i.message_keys)
        (All-put message_key ◌==◌ (λ r. has_chat r.chat_jid db ≡ true) (Messages.message_row m)
          db.messages found i.message_refs)
        (λ id. has_message-put id (Messages.message_row m) db))
]

put_media-IsConsistent :
    (m : MediaRef) (db : Db) → IsConsistent db → IsConsistent (or_same db (Media.put m db))
unfolding Media.put
put_media-IsConsistent m db i = elim (Bool-cases (has_message m.message_id db)) [
  | inr missing ↦ rw missing i
  | inl found ↦ rw found (
      media-IsConsistent i _
        (put-IsUnique media_key ◌==◌ eq_iff (Media.media_row m) db.media i.media_keys)
        (All-put media_key ◌==◌ (λ r. has_message r.message_id db ≡ true) (Media.media_row m)
          db.media found i.media_refs))
]

put_reaction-IsConsistent :
    (r : Reaction) (db : Db) → IsConsistent db → IsConsistent (or_same db (Reactions.put r db))
unfolding Reactions.put
put_reaction-IsConsistent r db i = elim (Bool-cases (has_message r.message_id db)) [
  | inr missing ↦ rw missing i
  | inl found ↦ rw found (
      reactions-IsConsistent i _
        (put-IsUnique reaction_key pair_eq pair_eq_iff (Reactions.reaction_row r) db.reactions
          i.reaction_keys)
        (All-put reaction_key pair_eq (λ x. has_message x.message_id db ≡ true)
          (Reactions.reaction_row r) db.reactions found i.reaction_refs))
]

put_receipt-IsConsistent :
    (r : Receipt) (db : Db) → IsConsistent db → IsConsistent (or_same db (Receipts.put r db))
unfolding Receipts.put
put_receipt-IsConsistent r db i = elim (Bool-cases (has_message r.message_id db)) [
  | inr missing ↦ rw missing i
  | inl found ↦ rw found (
      receipts-IsConsistent i _
        (put-IsUnique receipt_key triple_eq triple_eq_iff (Receipts.receipt_row r) db.receipts
          i.receipt_keys)
        (All-put receipt_key triple_eq (λ x. has_message x.message_id db ≡ true)
          (Receipts.receipt_row r) db.receipts found i.receipt_refs))
]

exec-IsConsistent :
    (s : Statement) (db : Db) → IsConsistent db → IsConsistent (or_same db (exec s db))
unfolding exec Chats.put Chats.set_archived Messages.soft_delete Contacts.put Events.append Kv.set
    Kv.delete Reactions.delete
exec-IsConsistent (put_chat c) db i =
    chats-IsConsistent i _
      (put-IsUnique chat_key ◌==◌ eq_iff (Chats.chat_row c) db.chats i.chat_keys)
      (λ jid. has_chat-put jid (Chats.chat_row c) db)
exec-IsConsistent (set_archived jid a) db i =
    chats-IsConsistent i _
      (modify-IsUnique chat_key ◌==◌ eq_iff (archive a) (λ r. refl) jid db.chats i.chat_keys)
      (λ j. has_chat-modify j jid (archive a) db (λ r. refl))
exec-IsConsistent (put_message m) db i = put_message-IsConsistent m db i
exec-IsConsistent (soft_delete id t) db i =
    messages-IsConsistent i _
      (modify-IsUnique message_key ◌==◌ eq_iff (mark t) (λ r. refl) id db.messages i.message_keys)
      (All-modify message_key ◌==◌ (λ r. has_chat r.chat_jid db ≡ true) id (mark t) db.messages
        (λ r h. h) i.message_refs)
      (λ j. has_message-modify j id (mark t) db (λ r. refl))
exec-IsConsistent (put_contact c) db i =
    contacts-IsConsistent i _
      (put-IsUnique contact_key ◌==◌ eq_iff (Contacts.contact_row c) db.contacts i.contact_keys)
exec-IsConsistent (put_media m) db i = put_media-IsConsistent m db i
exec-IsConsistent (append_event e) db i =
    events-IsConsistent i _ _ (IsAscending-append db.last_seq db.events_log _ refl i.seqs)
exec-IsConsistent (set_kv k v) db i =
    kv-IsConsistent i _
      (put-IsUnique kv_key ◌==◌ eq_iff (record { key = k; value = v }) db.kv i.kv_keys)
exec-IsConsistent (delete_kv k) db i =
    kv-IsConsistent i _ (delete-IsUnique kv_key ◌==◌ eq_iff k db.kv i.kv_keys)
exec-IsConsistent (put_reaction r) db i = put_reaction-IsConsistent r db i
exec-IsConsistent (delete_reaction m s) db i =
    reactions-IsConsistent i _
      (delete-IsUnique reaction_key pair_eq pair_eq_iff (m, s) db.reactions i.reaction_keys)
      (All-delete reaction_key pair_eq (λ r. has_message r.message_id db ≡ true) (m, s) db.reactions
        i.reaction_refs)
exec-IsConsistent (put_receipt r) db i = put_receipt-IsConsistent r db i

-- From a consistent store, any statements, failing or not, lead to a consistent store: primary
-- keys stay unique, no message, attachment, reaction or receipt refers to a missing row, and the
-- event log stays in the order of its numbers.
pub run-IsConsistent : (ss : List Statement) (db : Db) → IsConsistent db → IsConsistent (run ss db)
unfolding run
run-IsConsistent [] db i = i
run-IsConsistent (s ∷ ss) db i =
    run-IsConsistent ss (or_same db (exec s db)) (exec-IsConsistent s db i)
