-- ===== src/Sqlite/Receipts.antt =====
-- internal/store/sqlite/receipts.go
use whatsmeow_api.Prelude.{String, Bool, List, map, keep, ◌==◌, if◌then◌else◌}
use whatsmeow_api.Time.{unix, unix_to_time}
use whatsmeow_api.Errors.{Result, ok, err, failure}
use whatsmeow_api.Store.{Receipt}
use whatsmeow_api.Order.{order_by, text_leb}
use whatsmeow_api.Table
use whatsmeow_api.Sqlite.Tables.{ReceiptRow, Db, receipt_key, triple_eq, has_message}

abbrev pub receipt_row : Receipt → ReceiptRow
receipt_row r = record {
  message_id = r.message_id;
  reader_jid = r.reader_jid;
  type = r.type;
  ts = unix r.timestamp;
}

abbrev pub scan_receipt : ReceiptRow → Receipt
scan_receipt r = record {
  message_id = r.message_id;
  reader_jid = r.reader_jid;
  type = r.type;
  timestamp = unix_to_time r.ts;
}

-- The message must be there first.
unfoldable pub put : Receipt → Db → Result Db
put r db =
    if has_message r.message_id db
    then ok (record db { receipts = Table.put receipt_key triple_eq (receipt_row r) db.receipts })
    else err (failure "receipts put: FOREIGN KEY constraint failed")

-- ORDER BY reader_jid ASC, type ASC
abbrev pub by_reader : ReceiptRow → ReceiptRow → Bool
by_reader a b =
    if a.reader_jid == b.reader_jid
    then text_leb a.type b.type
    else text_leb a.reader_jid b.reader_jid

unfoldable pub list_by_message_id : String → Db → Result (List Receipt)
unfolding order_by
list_by_message_id id db =
    ok (map scan_receipt (order_by by_reader (keep (λ r. r.message_id == id) db.receipts)))
