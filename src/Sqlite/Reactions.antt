-- ===== src/Sqlite/Reactions.antt =====
-- internal/store/sqlite/reactions.go
use whatsmeow_api.Prelude.{String, Bool, List, map, keep, ◌==◌, if◌then◌else◌}
use whatsmeow_api.Time.{unix, unix_to_time}
use whatsmeow_api.Errors.{Result, ok, err, failure}
use whatsmeow_api.Store.{Reaction}
use whatsmeow_api.Order.{order_by, text_leb}
use whatsmeow_api.Table
use whatsmeow_api.Sqlite.Tables.{ReactionRow, Db, reaction_key, pair_eq, has_message}

abbrev pub reaction_row : Reaction → ReactionRow
reaction_row r = record {
  message_id = r.message_id;
  sender_jid = r.sender_jid;
  emoji = r.emoji;
  ts = unix r.timestamp;
}

abbrev pub scan_reaction : ReactionRow → Reaction
scan_reaction r = record {
  message_id = r.message_id;
  sender_jid = r.sender_jid;
  emoji = r.emoji;
  timestamp = unix_to_time r.ts;
}

-- The message must be there first.
unfoldable pub put : Reaction → Db → Result Db
put r db =
    if has_message r.message_id db
    then ok (record db { reactions = Table.put reaction_key pair_eq (reaction_row r) db.reactions })
    else err (failure "reactions put: FOREIGN KEY constraint failed")

unfoldable pub delete : String → String → Db → Result Db
delete message_id sender_jid db = ok (record db {
  reactions = Table.delete reaction_key pair_eq (message_id, sender_jid) db.reactions;
})

-- ORDER BY sender_jid ASC
abbrev pub by_sender : ReactionRow → ReactionRow → Bool
by_sender a b = text_leb a.sender_jid b.sender_jid

unfoldable pub list_by_message_id : String → Db → Result (List Reaction)
unfolding order_by
list_by_message_id id db =
    ok (map scan_reaction (order_by by_sender (keep (λ r. r.message_id == id) db.reactions)))
