-- ===== src/Sqlite/Chats.antt =====
-- internal/store/sqlite/chats.go
use whatsmeow_api.Prelude.{
  ℕ, ◌+◌, String, Bool, true, false, not, ◌&&◌, ◌||◌, Option, none, some, List, [], ◌∷◌, map, keep,
  length, ltb, eqb, ◌==◌, if◌then◌else◌, ℤ,
}
use whatsmeow_api.Time.{Time, zero_time, is_zero, unix, unix_or_nil, unix_to_time}
use whatsmeow_api.Errors.{Result, ok, err, not_found}
use whatsmeow_api.Store.{Chat}
use whatsmeow_api.Order.{order_by, limit_rows, text_leb}
use whatsmeow_api.Table
use whatsmeow_api.Sqlite.Tables.{ChatRow, Db, chat_key, bool_to_int, null_string}

abbrev pub chat_row : Chat → ChatRow
chat_row c = record {
  jid = c.jid;
  name = some c.name;
  kind = c.kind;
  last_msg_at = unix_or_nil c.last_msg_at;
  unread_count = c.unread_count;
  archived = bool_to_int c.archived;
}

abbrev pub scan_time : Option ℕ → Time
scan_time none = zero_time
scan_time (some n) = unix_to_time n

unfoldable pub scan_chat : ChatRow → Chat
scan_chat r = record {
  jid = r.jid;
  name = null_string r.name;
  kind = r.kind;
  last_msg_at = scan_time r.last_msg_at;
  unread_count = r.unread_count;
  archived = not (eqb r.archived 0);
}

unfoldable pub put : Chat → Db → Result Db
put c db = ok (record db { chats = Table.put chat_key ◌==◌ (chat_row c) db.chats })

abbrev pub scan_found : Option ChatRow → Result Chat
scan_found none = err not_found
scan_found (some r) = ok (scan_chat r)

unfoldable pub get : String → Db → Result Chat
unfolding scan_chat
get jid db = scan_found (Table.find chat_key ◌==◌ jid db.chats)

-- The WHERE clause: `archived = 0` unless archived chats are wanted, and the cursor if it is set.
abbrev before_ok : Time → Option ℕ → Bool
before_ok before none = is_zero before
before_ok before (some n) = is_zero before || ltb n (unix before)

abbrev pub list_where : Time → Bool → ChatRow → Bool
list_where before include_archived r =
    (include_archived || eqb r.archived 0) && before_ok before r.last_msg_at

-- ORDER BY last_msg_at DESC NULLS LAST, jid ASC, from the two instants and the order of the JIDs.
abbrev newest : Option ℕ → Option ℕ → Bool → Bool
newest none none jid_leb = jid_leb
newest none (some n) jid_leb = false
newest (some m) none jid_leb = true
newest (some m) (some n) jid_leb = if eqb m n then jid_leb else ltb n m

abbrev pub list_leb : ChatRow → ChatRow → Bool
list_leb a b = newest a.last_msg_at b.last_msg_at (text_leb a.jid b.jid)

unfoldable pub list : Time → ℤ → Bool → Db → Result (List Chat)
unfolding scan_chat order_by
list before limit include_archived db = ok (
    map scan_chat
      (limit_rows limit (order_by list_leb (keep (list_where before include_archived) db.chats))))

unfoldable pub set_archived : String → Bool → Db → Result Db
set_archived jid archived db = ok (record db {
  chats =
      Table.modify chat_key ◌==◌ jid (λ r. record r { archived = bool_to_int archived }) db.chats;
})

unfoldable pub chats_count : Db → Result ℕ
chats_count db = ok (length db.chats)

unfoldable pub sum_unread : List ChatRow → ℕ
sum_unread [] = 0
sum_unread (r ∷ rs) = r.unread_count + sum_unread rs

unfoldable pub total_unread : Db → Result ℕ
unfolding sum_unread
total_unread db = ok (sum_unread db.chats)
