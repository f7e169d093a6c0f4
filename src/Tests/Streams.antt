-- ===== src/Tests/Streams.antt =====
-- The theorems on the broadcaster and on the event stream, at concrete events.
use whatsmeow_api.Prelude.{◌≡◌, refl, ℕ, arith, List, [], ◌∷◌, ◌++◌, inl, map}
use whatsmeow_api.Table
use whatsmeow_api.Broadcaster.{Op, publish_op, receive_op, subscribe_op, run, new_broadcaster}
use whatsmeow_api.Broadcaster.Capacity.{IsBounded, run-IsBounded}
use whatsmeow_api.Broadcaster.Delivery.{InOrder, run-InOrder}
use whatsmeow_api.Sqlite.Tables.{Db}
use whatsmeow_api.Sqlite.Events
use whatsmeow_api.Sqlite.Since.{above}
use whatsmeow_api.Sqlite.Consistency.Updates.{IsConsistent}
use whatsmeow_api.Http.Events.{
  Wake, channel_event, heartbeat, events_from, live_tail, replay, caught_up,
}
use whatsmeow_api.Http.Events.Ascending.{Above, ids, sqlite_log, events_from-ascending}
use whatsmeow_api.Http.Events.Replay.{row_frame, replay_complete}
use whatsmeow_api.Http.Events.Late.{late-dropped}
use whatsmeow_api.Tests.Samples.{db, event, channel, broadcaster}
use whatsmeow_api.Tests.Stores.{db-IsConsistent}

-- A second subscriber comes, and the first one reads one of three events.
abbrev ops : List Op
ops = publish_op (event 2) ∷ receive_op 1 ∷ subscribe_op ∷ publish_op (event 3) ∷ []

run-InOrder_example : InOrder 1 ops broadcaster channel
unfolding Table.find
run-InOrder_example = run-InOrder 1 ops broadcaster channel (omega arith) (omega arith) refl refl

run-IsBounded_example : IsBounded (run ops (new_broadcaster 0))
run-IsBounded_example = run-IsBounded 0 ops

-- Two events, of which the second read finds both, then one that is already shown and a new one.
abbrev dbs : ℕ → Db
dbs _ = db

dbs-IsConsistent : (i : ℕ) → IsConsistent (dbs i)
dbs-IsConsistent _ = db-IsConsistent

abbrev wakes : List Wake
wakes = channel_event (event 3) ∷ heartbeat ∷ channel_event (event 4) ∷ []

events_from-ascending_example : Above 1 (ids (events_from (sqlite_log dbs) 2 1 wakes))
events_from-ascending_example = events_from-ascending dbs dbs-IsConsistent 2 1 wakes

stream_ids : ids (events_from (sqlite_log dbs) 2 1 wakes) ≡ 3 ∷ 4 ∷ []
unfolding events_from Events.since_seq
stream_ids = refl

replay_complete_example :
    ((replay (sqlite_log (λ _. db)) 3 0 1).end ≡ caught_up)
    × ((replay (sqlite_log (λ _. db)) 3 0 1).out ≡ map row_frame (above 1 db.events_log))
replay_complete_example = replay_complete db db-IsConsistent 3 1 (omega arith)

-- Event 3 was published before event 2.
abbrev early : List Wake
early = channel_event (event 3) ∷ []

late-dropped_example :
    live_tail 1 (early ++ (channel_event (event 2) ∷ early)) ≡ live_tail 1 (early ++ early)
late-dropped_example = late-dropped (event 2) early 1 early (inl (omega arith))
