-- ===== src/Postgres/Messages.antt =====
-- internal/store/postgres/messages.go. Rows that a query's ORDER BY leaves equal stand in the order
-- of insertion; the server may give them in any order.
use whatsmeow_api.Prelude.{
  ℕ, String, Bool, not, ◌&&◌, ◌||◌, Option, none, some, List, map, keep, length, ltb, eqb, ◌==◌,
  if◌then◌else◌, ℤ,
}
use mathlib.Core.Option
use whatsmeow_api.Time.{Time, is_zero}
use whatsmeow_api.Errors.{Result, ok, err, not_found, failure, ◌>>=◌}
use whatsmeow_api.Store.{Message}
use whatsmeow_api.Order.{order_by}
use whatsmeow_api.Table
use whatsmeow_api.Sqlite.Tables.{nullable_string, null_string, is_some}
use whatsmeow_api.Postgres.Tables.{
  PgMessage, PgDb, PgEngine, pg_message_key, pg_has_chat, ptr_time_or_nil, time_ltb, time_leb,
  limited, is_text, taken, message_fits,
}

unfoldable pub scan_pg_message : PgMessage → Message
scan_pg_message r = record {
  id = r.id;
  chat_jid = r.chat_jid;
  sender_jid = r.sender_jid;
  timestamp = r.ts;
  kind = r.kind;
  body = null_string r.body;
  reply_to = null_string r.reply_to;
  edited_at = r.edited_at;
  deleted_at = r.deleted_at;
  raw_meta = null_string r.raw_meta;
}

abbrev pub pg_message_found : Option PgMessage → Result Message
pg_message_found none = err not_found
pg_message_found (some r) = ok (scan_pg_message r)

unfoldable pub pg_messages_get : String → PgDb → Result Message
unfolding scan_pg_message
pg_messages_get id db =
    taken (is_text id) (pg_message_found (Table.find pg_message_key ◌==◌ id db.messages))

abbrev pub pg_is_live : PgMessage → Bool
pg_is_live r = not (is_some r.deleted_at)

module _ (g : PgEngine) where
  abbrev pub pg_message : Message → PgMessage
  pg_message m = record {
    id = m.id;
    chat_jid = m.chat_jid;
    sender_jid = m.sender_jid;
    ts = g.kept m.timestamp;
    kind = m.kind;
    body = nullable_string m.body;
    reply_to = nullable_string m.reply_to;
    edited_at = Option.map g.kept (ptr_time_or_nil m.edited_at);
    deleted_at = Option.map g.kept (ptr_time_or_nil m.deleted_at);
    raw_meta = nullable_string m.raw_meta;
  }

  unfoldable pub pg_messages_put : Message → PgDb → Result PgDb
  pg_messages_put m db = taken (message_fits g m) (
      if pg_has_chat m.chat_jid db
      then ok (record db { messages = Table.put pg_message_key ◌==◌ (pg_message m) db.messages })
      else err (failure "messages put: violates foreign key constraint"))

  unfoldable pub pg_list_by_chat : String → ℤ → Time → PgDb → Result (List Message)
  unfolding scan_pg_message order_by limited
  pg_list_by_chat chat_jid limit before db = taken (is_text chat_jid) (
      limited limit (
        order_by (λ a b. time_leb b.ts a.ts)
          (keep
            (λ r.
              r.chat_jid == chat_jid
              && pg_is_live r
              && (is_zero before || time_ltb r.ts (g.kept before)))
            db.messages))
      >>= λ rows. ok (map scan_pg_message rows))

  -- ORDER BY ts_rank DESC, ts DESC
  abbrev pub ranked : String → PgMessage → PgMessage → Bool
  ranked query a b =
      let m = g.ts_rank query (null_string a.body) in
      let n = g.ts_rank query (null_string b.body) in
      if eqb m n then time_leb b.ts a.ts else ltb n m

  unfoldable pub pg_search : String → ℤ → PgDb → Result (List Message)
  unfolding scan_pg_message order_by limited
  pg_search query limit db = taken (is_text query) (
      limited limit (
        order_by (ranked query)
          (keep (λ r. g.tsquery query (null_string r.body) && pg_is_live r) db.messages))
      >>= λ rows. ok (map scan_pg_message rows))

  unfoldable pub pg_soft_delete : String → Time → PgDb → Result PgDb
  pg_soft_delete id when db = taken (is_text id) (
      ok (record db {
        messages =
            Table.modify pg_message_key ◌==◌ id (λ r. record r { deleted_at = some (g.kept when) })
              db.messages;
      }))

unfoldable pub pg_messages_count : PgDb → Result ℕ
pg_messages_count db = ok (length (keep pg_is_live db.messages))
