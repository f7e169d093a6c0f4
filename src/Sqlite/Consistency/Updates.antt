-- ===== src/Sqlite/Consistency/Updates.antt =====
-- The integrity of the store, and what it takes to replace one of its tables.
use whatsmeow_api.Prelude.{ℕ, ◌≡◌, String, true, List, eq_iff, ◌==◌, All, All-mono}
use whatsmeow_api.Sqlite.Tables.{
  Db, ChatRow, MessageRow, ContactRow, MediaRow, KvRow, EventRow, ReactionRow, ReceiptRow, chat_key,
  message_key, contact_key, media_key, kv_key, reaction_key, receipt_key, pair_eq, triple_eq,
  has_chat, has_message,
}
use whatsmeow_api.Table.Laws.{IsUnique}
use whatsmeow_api.Sqlite.Consistency.Keys.{IsAscending, pair_eq_iff, triple_eq_iff}

-- Keys are unique, every reference has its row, and the event log is in the order of its numbers.
pub record IsConsistent (db : Db) : Type 0 where
  pub chat_keys : IsUnique chat_key ◌==◌ eq_iff db.chats
  pub message_keys : IsUnique message_key ◌==◌ eq_iff db.messages
  pub contact_keys : IsUnique contact_key ◌==◌ eq_iff db.contacts
  pub media_keys : IsUnique media_key ◌==◌ eq_iff db.media
  pub kv_keys : IsUnique kv_key ◌==◌ eq_iff db.kv
  pub reaction_keys : IsUnique reaction_key pair_eq pair_eq_iff db.reactions
  pub receipt_keys : IsUnique receipt_key triple_eq triple_eq_iff db.receipts
  pub message_refs : All (λ r. has_chat r.chat_jid db ≡ true) db.messages
  pub media_refs : All (λ r. has_message r.message_id db ≡ true) db.media
  pub reaction_refs : All (λ r. has_message r.message_id db ≡ true) db.reactions
  pub receipt_refs : All (λ r. has_message r.message_id db ≡ true) db.receipts
  pub seqs : IsAscending db.last_seq db.events_log

module _ {db : Db} (i : IsConsistent db) where
  pub chats-IsConsistent :
      (rows : List ChatRow)
      → IsUnique chat_key ◌==◌ eq_iff rows
      → ((jid : String) → has_chat jid db ≡ true → has_chat jid (record db { chats = rows }) ≡ true)
      → IsConsistent (record db { chats = rows })
  chats-IsConsistent rows u stay =
      let refs : All (λ r. has_chat r.chat_jid (record db { chats = rows }) ≡ true) db.messages =
        All-mono _ _ db.messages (λ r. stay r.chat_jid) i.message_refs in
      assumption (u, refs)

  pub messages-IsConsistent :
      (rows : List MessageRow)
      → IsUnique message_key ◌==◌ eq_iff rows
      → All (λ r. has_chat r.chat_jid db ≡ true) rows
      → ((id : String)
          → has_message id db ≡ true
          → has_message id (record db { messages = rows }) ≡ true)
      → IsConsistent (record db { messages = rows })
  messages-IsConsistent rows u refs stay = record {
    chat_keys = i.chat_keys;
    message_keys = u;
    contact_keys = i.contact_keys;
    media_keys = i.media_keys;
    kv_keys = i.kv_keys;
    reaction_keys = i.reaction_keys;
    receipt_keys = i.receipt_keys;
    message_refs = refs;
    media_refs = All-mono _ _ db.media (λ r. stay r.message_id) i.media_refs;
    reaction_refs = All-mono _ _ db.reactions (λ r. stay r.message_id) i.reaction_refs;
    receipt_refs = All-mono _ _ db.receipts (λ r. stay r.message_id) i.receipt_refs;
    seqs = i.seqs;
  }

  pub contacts-IsConsistent :
      (rows : List ContactRow)
      → IsUnique contact_key ◌==◌ eq_iff rows
      → IsConsistent (record db { contacts = rows })
  contacts-IsConsistent rows u = assumption u

  pub kv-IsConsistent :
      (rows : List KvRow)
      → IsUnique kv_key ◌==◌ eq_iff rows
      → IsConsistent (record db { kv = rows })
  kv-IsConsistent rows u = assumption u

  pub media-IsConsistent :
      (rows : List MediaRow)
      → IsUnique media_key ◌==◌ eq_iff rows
      → All (λ r. has_message r.message_id db ≡ true) rows
      → IsConsistent (record db { media = rows })
  media-IsConsistent rows u refs = assumption (u, refs)

  pub reactions-IsConsistent :
      (rows : List ReactionRow)
      → IsUnique reaction_key pair_eq pair_eq_iff rows
      → All (λ r. has_message r.message_id db ≡ true) rows
      → IsConsistent (record db { reactions = rows })
  reactions-IsConsistent rows u refs = assumption (u, refs)

  pub receipts-IsConsistent :
      (rows : List ReceiptRow)
      → IsUnique receipt_key triple_eq triple_eq_iff rows
      → All (λ r. has_message r.message_id db ≡ true) rows
      → IsConsistent (record db { receipts = rows })
  receipts-IsConsistent rows u refs = assumption (u, refs)

  pub events-IsConsistent :
      (rows : List EventRow) (last : ℕ)
      → IsAscending last rows
      → IsConsistent (record db { events_log = rows; last_seq = last })
  events-IsConsistent rows last a = assumption a
