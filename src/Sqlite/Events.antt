-- ===== src/Sqlite/Events.antt =====
-- internal/store/sqlite/events_log.go
use whatsmeow_api.Prelude.{ℕ, ◌+◌, Bool, List, [], ◌∷◌, ◌++◌, map, keep, ltb, leb, ℤ}
use whatsmeow_api.Time.{unix, unix_to_time}
use whatsmeow_api.Errors.{Result, ok}
use whatsmeow_api.Store.{EventLogEntry}
use whatsmeow_api.Order.{order_by, limit_rows}
use whatsmeow_api.Sqlite.Tables.{EventRow, Db}

abbrev pub scan_event : EventRow → EventLogEntry
scan_event r = record { seq = r.seq; time = unix_to_time r.ts; type = r.type; payload = r.payload }

-- AUTOINCREMENT: one more than the largest seq that the table ever held.
unfoldable pub append : EventLogEntry → Db → Result (ℕ × Db)
append e db =
    let seq = db.last_seq + 1 in
    let row : EventRow = record {
      seq = seq;
      ts = unix e.time;
      type = e.type;
      payload = e.payload;
    } in
    ok (seq, record db { events_log = db.events_log ++ (row ∷ []); last_seq = seq })

-- ORDER BY seq ASC
abbrev pub by_seq : EventRow → EventRow → Bool
by_seq a b = leb a.seq b.seq

unfoldable pub since_seq : ℕ → ℤ → Db → Result (List EventLogEntry)
unfolding order_by
since_seq seq limit db =
    ok (
      map scan_event (limit_rows limit (order_by by_seq (keep (λ r. ltb seq r.seq) db.events_log))))
