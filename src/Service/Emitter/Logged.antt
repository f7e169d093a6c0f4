-- ===== src/Service/Emitter/Logged.antt =====
-- An event on the SQLite store: what subscribers are sent is what the log holds.
use whatsmeow_api.Prelude.{
  ℕ, zero, suc, ◌+◌, ◌≤◌, ◌<◌, ◌≡◌, refl, ◌∙◌, ap, String, List, [], ◌∷◌, ◌++◌, map, take, some,
  arith, lt→ltb, le→ltb, pos,
}
use whatsmeow_api.Time.{whole_seconds, unix}
use whatsmeow_api.Errors.{ok}
use whatsmeow_api.Json.{Json}
use whatsmeow_api.Broadcaster.{Broadcaster, publish}
use whatsmeow_api.Sqlite.Tables.{EventRow}
use whatsmeow_api.Sqlite.Events
use whatsmeow_api.Sqlite.Events.{scan_event}
use whatsmeow_api.Sqlite.Consistency.Keys.{IsAscendingFrom, IsAscending-append}
use whatsmeow_api.Sqlite.Consistency.Updates.{IsConsistent}
use whatsmeow_api.Sqlite.Since.{Climbs, above, since_seq_lem, IsAscendingFrom→Climbs}
use whatsmeow_api.Sqlite.Store.{Engine, bundle}
use whatsmeow_api.Waclient.Client.{WaClient}
use whatsmeow_api.Service.World.{MediaDisk, World}
use whatsmeow_api.Service.Emitter.{emit}

-- Nothing but the new row is above the old counter.
above-append :
    (low last : ℕ) (rows : List EventRow) (r : EventRow)
    → last < r.seq
    → IsAscendingFrom low last rows
    → above last (rows ++ (r ∷ [])) ≡ r ∷ []
above-append low last [] r new h = rw (lt→ltb last r.seq new) refl
above-append low last (x ∷ rows) r new (p, ps) =
    rw (le→ltb last x.seq (bounded x.seq rows ps)) (above-append x.seq last rows r new ps)
  where
    bounded : (n : ℕ) (rs : List EventRow) → IsAscendingFrom n last rs → n ≤ last
    bounded n [] h = h
    bounded n (y ∷ ys) (q, qs) = omega (arith, q, bounded y.seq ys qs)

module _ (g : Engine) {W : WaClient} {D : MediaDisk} (kind : String) (payload : Json)
    (w : World (bundle g) W D) where
  -- On a consistent SQLite store with a broadcaster, an event is published under a number that no
  -- event had before, and whoever reads the log from where it ended then gets that event, under
  -- that number, and no other.
  pub emit-logged :
      (b : Broadcaster)
      → w.broadcaster ≡ some b
      → IsConsistent w.store
      → (n : ℕ)
      → (seq : ℕ) × (w.store.last_seq < seq)
        × ((emit kind payload w).broadcaster
            ≡ some (publish (record { seq = seq; kind = kind; payload = payload }) b))
        × (Events.since_seq w.store.last_seq (pos (suc n)) (emit kind payload w).store
            ≡ ok (
                record { seq = seq; time = whole_seconds w.clock; type = kind; payload = payload }
                ∷ []))
  unfolding emit Events.append
  emit-logged b up sound n = (
    w.store.last_seq + 1,
    omega arith,
    rw up refl,
    since_seq_lem w.store.last_seq (suc n) (emit kind payload w).store climbs
        ∙ ap (λ rows. ok (map scan_event (take (suc n) rows)))
            (above-append 0 w.store.last_seq w.store.events_log row (omega arith) sound.seqs)
        ∙ ap (λ es. ok (scan_event row ∷ es)) (none_left n),
  )
    where
      row : EventRow
      row = record { seq = w.store.last_seq + 1; ts = unix w.clock; type = kind; payload = payload }

      climbs : Climbs 0 (w.store.events_log ++ (row ∷ []))
      climbs =
          IsAscendingFrom→Climbs 0 (w.store.last_seq + 1) (w.store.events_log ++ (row ∷ []))
            (IsAscending-append w.store.last_seq w.store.events_log row refl sound.seqs)

      none_left : (k : ℕ) → map scan_event (take k []) ≡ []
      none_left zero = refl
      none_left (suc k) = refl
