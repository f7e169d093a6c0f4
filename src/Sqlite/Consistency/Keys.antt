-- ===== src/Sqlite/Consistency/Keys.antt =====
-- Composite keys, references that stay, and growing numbers.
use whatsmeow_api.Prelude.{
  ℕ, ◌+◌, ◌≤◌, ◌<◌, ◌≡◌, ◌↔◌, String, true, List, [], ◌∷◌, ◌++◌, arith, eq_iff, ◌==◌,
}
use whatsmeow_api.Table
use whatsmeow_api.Table.Laws.{find-put, find-modify}
use whatsmeow_api.Sqlite.Tables.{
  Db, ChatRow, MessageRow, EventRow, chat_key, message_key, pair_eq, triple_eq, has_chat,
  has_message,
}

pub pair_eq_iff : (a b : String × String) → (pair_eq a b ≡ true) ↔ (a ≡ b)
pair_eq_iff (a, b) (c, d) = ground (arith, eq_iff a c, eq_iff b d)

pub triple_eq_iff : (a b : String × String × String) → (triple_eq a b ≡ true) ↔ (a ≡ b)
triple_eq_iff (a, b, c) (d, e, f) = ground (arith, eq_iff a d, eq_iff b e, eq_iff c f)

-- The rows stand in the order of their numbers, none past the counter.
abbrev pub IsAscendingFrom : ℕ → ℕ → List EventRow → Type 0
IsAscendingFrom low last [] = low ≤ last
IsAscendingFrom low last (r ∷ rs) = (low < r.seq) × IsAscendingFrom r.seq last rs

abbrev pub IsAscending : ℕ → List EventRow → Type 0
IsAscending last rows = IsAscendingFrom 0 last rows

IsAscendingFrom-append :
    (low last : ℕ) (rows : List EventRow) (r : EventRow)
    → r.seq ≡ last + 1
    → IsAscendingFrom low last rows
    → IsAscendingFrom low (last + 1) (rows ++ (r ∷ []))
IsAscendingFrom-append low last [] r e h = omega arith
IsAscendingFrom-append low last (x ∷ rows) r e (p, ps) =
    (p, IsAscendingFrom-append x.seq last rows r e ps)

pub IsAscending-append :
    (last : ℕ) (rows : List EventRow) (r : EventRow)
    → r.seq ≡ last + 1
    → IsAscending last rows
    → IsAscending (last + 1) (rows ++ (r ∷ []))
IsAscending-append last rows r e h = IsAscendingFrom-append 0 last rows r e h

-- No statement takes a chat or a message away.
pub has_chat-put :
    (jid : String) (r : ChatRow) (db : Db)
    → has_chat jid db ≡ true
    → has_chat jid (record db { chats = Table.put chat_key ◌==◌ r db.chats }) ≡ true
has_chat-put jid r db h = ground (arith, find-put chat_key ◌==◌ eq_iff jid r db.chats)

pub has_message-put :
    (id : String) (r : MessageRow) (db : Db)
    → has_message id db ≡ true
    → has_message id (record db { messages = Table.put message_key ◌==◌ r db.messages }) ≡ true
has_message-put id r db h = ground (arith, find-put message_key ◌==◌ eq_iff id r db.messages)

pub has_chat-modify :
    (jid j : String) (f : ChatRow → ChatRow) (db : Db)
    → ((r : ChatRow) → (f r).jid ≡ r.jid)
    → has_chat jid db ≡ true
    → has_chat jid (record db { chats = Table.modify chat_key ◌==◌ j f db.chats }) ≡ true
has_chat-modify jid j f db k h = ground (arith, find-modify chat_key ◌==◌ eq_iff f k jid j db.chats)

pub has_message-modify :
    (id j : String) (f : MessageRow → MessageRow) (db : Db)
    → ((r : MessageRow) → (f r).id ≡ r.id)
    → has_message id db ≡ true
    → has_message id (record db { messages = Table.modify message_key ◌==◌ j f db.messages }) ≡ true
has_message-modify id j f db k h =
    ground (arith, find-modify message_key ◌==◌ eq_iff f k id j db.messages)
