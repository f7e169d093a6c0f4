-- ===== src/Sqlite/Messages.antt =====
-- internal/store/sqlite/messages.go. Full-text matching is FTS5's: `fts query` is the test that a
-- MATCH expression makes of a body, or `none` where the expression does not parse.
use whatsmeow_api.Prelude.{
  ℕ, String, Bool, true, false, ◌&&◌, ◌||◌, Option, none, some, List, map, keep, length, ltb, leb,
  ◌==◌, if◌then◌else◌, ℤ,
}
use whatsmeow_api.Time.{Time, is_zero, unix, ptr_unix, unix_to_time}
use whatsmeow_api.Errors.{Result, ok, err, not_found, failure}
use whatsmeow_api.Store.{Message}
use whatsmeow_api.Order.{order_by, limit_rows}
use whatsmeow_api.Table
use whatsmeow_api.Sqlite.Tables.{
  MessageRow, Db, message_key, has_chat, nullable_string, null_string, is_some,
}

abbrev pub message_row : Message → MessageRow
message_row m = record {
  id = m.id;
  chat_jid = m.chat_jid;
  sender_jid = m.sender_jid;
  ts = unix m.timestamp;
  kind = m.kind;
  body = nullable_string m.body;
  reply_to = nullable_string m.reply_to;
  edited_at = ptr_unix m.edited_at;
  deleted_at = ptr_unix m.deleted_at;
  raw_meta = nullable_string m.raw_meta;
}

abbrev pub scan_ptr : Option ℕ → Option Time
scan_ptr none = none
scan_ptr (some n) = some (unix_to_time n)

unfoldable pub scan_message : MessageRow → Message
scan_message r = record {
  id = r.id;
  chat_jid = r.chat_jid;
  sender_jid = r.sender_jid;
  timestamp = unix_to_time r.ts;
  kind = r.kind;
  body = null_string r.body;
  reply_to = null_string r.reply_to;
  edited_at = scan_ptr r.edited_at;
  deleted_at = scan_ptr r.deleted_at;
  raw_meta = null_string r.raw_meta;
}

-- The chat must be there first.
unfoldable pub put : Message → Db → Result Db
put m db =
    if has_chat m.chat_jid db
    then ok (record db { messages = Table.put message_key ◌==◌ (message_row m) db.messages })
    else err (failure "messages put: FOREIGN KEY constraint failed")

abbrev pub scan_found : Option MessageRow → Result Message
scan_found none = err not_found
scan_found (some r) = ok (scan_message r)

unfoldable pub get : String → Db → Result Message
unfolding scan_message
get id db = scan_found (Table.find message_key ◌==◌ id db.messages)

abbrev pub is_live : MessageRow → Bool
is_live r = if is_some r.deleted_at then false else true

abbrev pub list_where : String → Time → MessageRow → Bool
list_where chat_jid before r =
    r.chat_jid == chat_jid && is_live r && (is_zero before || ltb r.ts (unix before))

-- ORDER BY ts DESC
abbrev pub newest_first : MessageRow → MessageRow → Bool
newest_first a b = leb b.ts a.ts

unfoldable pub list_by_chat : String → ℤ → Time → Db → Result (List Message)
unfolding scan_message order_by
list_by_chat chat_jid limit before db = ok (
    map scan_message
      (limit_rows limit (order_by newest_first (keep (list_where chat_jid before) db.messages))))

-- The rows that match, if the expression parses.
unfoldable pub found_rows : Option (String → Bool) → ℤ → Db → Result (List Message)
unfolding scan_message order_by
found_rows none limit db = err (failure "messages search")
found_rows (some matches) limit db = ok (
    map scan_message (
      limit_rows limit (
        order_by newest_first (keep (λ r. matches (null_string r.body) && is_live r) db.messages))))

-- The index triggers keep the full-text index equal to the bodies.
unfoldable pub search : (String → Option (String → Bool)) → String → ℤ → Db → Result (List Message)
unfolding found_rows
search fts query limit db = found_rows (fts query) limit db

unfoldable pub soft_delete : String → Time → Db → Result Db
soft_delete id when db = ok (record db {
  messages =
      Table.modify message_key ◌==◌ id (λ r. record r { deleted_at = some (unix when) })
        db.messages;
})

unfoldable pub messages_count : Db → Result ℕ
messages_count db = ok (length (keep is_live db.messages))
