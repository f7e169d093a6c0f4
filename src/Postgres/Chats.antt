-- ===== src/Postgres/Chats.antt =====
-- internal/store/postgres/chats.go
use whatsmeow_api.Prelude.{
  ℕ, ◌+◌, String, Bool, true, false, not, ◌&&◌, ◌||◌, Option, none, some, List, [], ◌∷◌, map, keep,
  length, ◌==◌, if◌then◌else◌, ℤ,
}
use mathlib.Core.Option
use whatsmeow_api.Time.{Time, zero_time, is_zero}
use whatsmeow_api.Errors.{Result, ok, err, not_found, ◌>>=◌}
use whatsmeow_api.Store.{Chat}
use whatsmeow_api.Order.{order_by}
use whatsmeow_api.Table
use whatsmeow_api.Sqlite.Tables.{null_string}
use whatsmeow_api.Postgres.Tables.{
  PgChat, PgDb, PgEngine, pg_chat_key, time_or_nil, time_ltb, limited, is_text, taken, chat_fits,
}

abbrev pub time_of : Option Time → Time
time_of none = zero_time
time_of (some t) = t

unfoldable pub scan_pg_chat : PgChat → Chat
scan_pg_chat r = record {
  jid = r.jid;
  name = null_string r.name;
  kind = r.kind;
  last_msg_at = time_of r.last_msg_at;
  unread_count = r.unread_count;
  archived = r.archived;
}

abbrev pub pg_chat_found : Option PgChat → Result Chat
pg_chat_found none = err not_found
pg_chat_found (some r) = ok (scan_pg_chat r)

-- ORDER BY last_msg_at DESC NULLS LAST, jid ASC
abbrev later : Option Time → Option Time → Bool → Bool
later none none jid_le = jid_le
later none (some _) jid_le = false
later (some _) none jid_le = true
later (some a) (some b) jid_le =
    if time_ltb b a then true else if time_ltb a b then false else jid_le

abbrev before_cursor : Time → Option Time → Bool
before_cursor before none = false
before_cursor before (some t) = time_ltb t before

module _ (g : PgEngine) where
  abbrev pub pg_chat : Chat → PgChat
  pg_chat c = record {
    jid = c.jid;
    name = some c.name;
    kind = c.kind;
    last_msg_at = Option.map g.kept (time_or_nil c.last_msg_at);
    unread_count = c.unread_count;
    archived = c.archived;
  }

  unfoldable pub pg_chats_put : Chat → PgDb → Result PgDb
  pg_chats_put c db =
      taken (chat_fits g c)
        (ok (record db { chats = Table.put pg_chat_key ◌==◌ (pg_chat c) db.chats }))

  -- The cursor is bound as an instant, and compared as the server keeps it.
  unfoldable pub pg_chats_list : Time → ℤ → Bool → PgDb → Result (List Chat)
  unfolding scan_pg_chat order_by limited
  pg_chats_list before limit include_archived db =
      limited limit (
        order_by (λ a b. later a.last_msg_at b.last_msg_at (g.collate a.jid b.jid))
          (keep
            (λ r.
              (include_archived || not r.archived)
              && (is_zero before || before_cursor (g.kept before) r.last_msg_at))
            db.chats))
      >>= λ rows. ok (map scan_pg_chat rows)

unfoldable pub pg_chats_get : String → PgDb → Result Chat
unfolding scan_pg_chat
pg_chats_get jid db = taken (is_text jid) (pg_chat_found (Table.find pg_chat_key ◌==◌ jid db.chats))

unfoldable pub pg_set_archived : String → Bool → PgDb → Result PgDb
pg_set_archived jid archived db = taken (is_text jid) (
    ok (record db {
      chats = Table.modify pg_chat_key ◌==◌ jid (λ r. record r { archived = archived }) db.chats;
    }))

unfoldable pub pg_chats_count : PgDb → Result ℕ
pg_chats_count db = ok (length db.chats)

unfoldable pub pg_sum_unread : List PgChat → ℕ
pg_sum_unread [] = 0
pg_sum_unread (r ∷ rs) = r.unread_count + pg_sum_unread rs

unfoldable pub pg_total_unread : PgDb → Result ℕ
unfolding pg_sum_unread
pg_total_unread db = ok (pg_sum_unread db.chats)
