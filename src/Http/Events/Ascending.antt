-- ===== src/Http/Events/Ascending.antt =====
-- The ids that a client of the event stream sees.
use mathlib.Core.List.{append_assoc, append-nil}
use whatsmeow_api.Prelude.{
  ℕ, suc, zero, ◌+◌, ◌<◌, ◌≡◌, refl, ◌∙◌, sym, subst, none, some, List, [], ◌∷◌, ◌++◌, map, take,
  length, ltb, leb, eqb, arith, Bool-cases, inl, inr, ℤ, pos, negsuc,
}
use whatsmeow_api.Errors.{Result, ok, err, ok-injective}
use whatsmeow_api.Store.{EventLogEntry}
use whatsmeow_api.Sqlite.Tables.{Db, EventRow}
use whatsmeow_api.Sqlite.Events
use whatsmeow_api.Sqlite.Events.{scan_event, by_seq}
use whatsmeow_api.Sqlite.Consistency.Updates.{IsConsistent}
use whatsmeow_api.Sqlite.Since.{
  Climbs, above, above-Climbs, since_seq_lem, Climbs-take, order_by-Climbs, IsAscendingFrom→Climbs,
}
use whatsmeow_api.Http.Events.{
  Output, comment, frame, logged_frame, replay_batch, replay_round, ReplayEnd, caught_up,
  read_failed, unfinished, Replayed, last_of, replay, Wake, request_done, heartbeat, channel_closed,
  channel_event, live_tail, after_replay, events_from,
}

abbrev pub ids : List Output → List ℕ
ids [] = []
ids (comment _ ∷ os) = ids os
ids (frame none _ _ ∷ os) = ids os
ids (frame (some n) _ _ ∷ os) = n ∷ ids os

-- Strictly ascending numbers, all above `last`.
abbrev pub Above : ℕ → List ℕ → Type 0
Above last [] = Unit
Above last (n ∷ ns) = (last < n) × Above n ns

live_tail-Above : (last : ℕ) (ws : List Wake) → Above last (ids (live_tail last ws))
unfolding live_tail
live_tail-Above last [] = tt
live_tail-Above last (request_done ∷ ws) = tt
live_tail-Above last (heartbeat ∷ ws) = live_tail-Above last ws
live_tail-Above last (channel_closed ∷ ws) = tt
live_tail-Above last (channel_event ev ∷ ws) = elim (Bool-cases (leb ev.seq last)) [
  | inl old ↦ rw old (live_tail-Above last ws)
  | inr fresh ↦ rw fresh (ground arith, live_tail-Above ev.seq ws)
]

-- The rows of a read ascend from the number that was read from.
abbrev pub Rising : ℕ → List EventLogEntry → Type 0
Rising last [] = Unit
Rising last (row ∷ rows) = (last < row.seq) × Rising row.seq rows

abbrev pub IsReader : (ℕ → ℕ → ℤ → Result (List EventLogEntry)) → Type 0
IsReader since =
    (i last : ℕ) (n : ℤ) (rows : List EventLogEntry) → since i last n ≡ ok rows → Rising last rows

-- Frames of rising rows, then what ascends from the last of them.
logged-Above :
    (last : ℕ) (rows : List EventLogEntry) (os : List Output)
    → Rising last rows
    → Above (last_of last rows) (ids os)
    → Above last (ids (map logged_frame rows ++ os))
logged-Above last [] os _ h = h
logged-Above last (row ∷ rows) os (p, ps) h = (p, logged-Above row.seq rows os ps h)

replay_round-Above :
    (last : ℕ) (r : Result (List EventLogEntry)) (rest : ℕ → Replayed) (os : List Output)
    → ((rows : List EventLogEntry) → r ≡ ok rows → Rising last rows)
    → ((n : ℕ) → Above (rest n).last (ids os) → Above n (ids ((rest n).out ++ os)))
    → Above (replay_round last r rest).last (ids os)
    → Above last (ids ((replay_round last r rest).out ++ os))
unfolding replay_round
replay_round-Above last (err e) rest os rising more h = h
replay_round-Above last (ok rows) rest os rising more h = elim (Bool-cases (eqb (length rows) 0)) [
  | inl none_left ↦ rw none_left (rw none_left at h)
  | inr some_left ↦ elim (Bool-cases (ltb (length rows) replay_batch)) [
    | inl short ↦
        rw (some_left, short)
          (logged-Above last rows os (rising rows refl) (rw (some_left, short) at h))
    | inr full ↦
        rw (some_left, full, append_assoc)
          (logged-Above last rows _ (rising rows refl)
            (more (last_of last rows) (rw (some_left, full) at h)))
  ]
]

module _ (since : ℕ → ℕ → ℤ → Result (List EventLogEntry)) (reader : IsReader since) where
  -- A replay, and what ascends from where it got to.
  replay-Above :
      (reads i last : ℕ) (os : List Output)
      → Above (replay since reads i last).last (ids os)
      → Above last (ids ((replay since reads i last).out ++ os))
  unfolding replay
  replay-Above zero i last os h = h
  replay-Above (suc reads) i last os h =
      replay_round-Above last (since i last (pos replay_batch)) (replay since reads (i + 1)) os
        (reader i last (pos replay_batch)) (λ n. replay-Above reads (i + 1) n os) h

  -- The stream after its synthetic frame.
  events_from-Above :
      (reads last : ℕ) (ws : List Wake) → Above last (ids (events_from since reads last ws))
  unfolding events_from
  events_from-Above reads last ws = go (replay since reads 0 last).end
    where
      alone : Above last (ids (replay since reads 0 last).out)
      alone =
          subst (λ os. Above last (ids os)) (append-nil (replay since reads 0 last).out)
            (replay-Above reads 0 last [] tt)

      go :
          (end : ReplayEnd)
          → Above last (
              ids (
                after_replay end
                  (replay since reads 0 last).out
                  (live_tail (replay since reads 0 last).last ws)))
      go caught_up =
          replay-Above reads 0 last (live_tail (replay since reads 0 last).last ws)
            (live_tail-Above (replay since reads 0 last).last ws)
      go read_failed = alone
      go unfinished = alone

-- The stream as it reads the SQLite store: `dbs i` is the store at the moment of the i-th read.
abbrev pub sqlite_log : (ℕ → Db) → ℕ → ℕ → ℤ → Result (List EventLogEntry)
sqlite_log dbs i last n = Events.since_seq last n (dbs i)

Climbs→Rising :
    (low : ℕ) (rows : List EventRow) → Climbs low rows → Rising low (map scan_event rows)
Climbs→Rising low [] _ = tt
Climbs→Rising low (r ∷ rs) (p, ps) = (p, Climbs→Rising r.seq rs ps)

sqlite_log-IsReader : (dbs : ℕ → Db) → ((i : ℕ) → IsConsistent (dbs i)) → IsReader (sqlite_log dbs)
unfolding Events.since_seq
sqlite_log-IsReader dbs sound i last n rows read = go n read
  where
    climbs : Climbs 0 (dbs i).events_log
    climbs = IsAscendingFrom→Climbs 0 (dbs i).last_seq (dbs i).events_log (sound i).seqs

    shown : Climbs last (above last (dbs i).events_log)
    shown = above-Climbs 0 last (dbs i).events_log climbs

    go : (n : ℤ) → sqlite_log dbs i last n ≡ ok rows → Rising last rows
    go (pos k) e =
        subst (Rising last) (ok-injective (sym (since_seq_lem last k (dbs i) climbs) ∙ e)) (
          Climbs→Rising last (take k (above last (dbs i).events_log))
            (Climbs-take last k (above last (dbs i).events_log) shown))
    go (negsuc k) e = subst (Rising last) (ok-injective e) (
        rw (order_by-Climbs last (above last (dbs i).events_log) shown)
          (Climbs→Rising last (above last (dbs i).events_log) shown))

-- Whatever is appended to a consistent log between the reads, and whatever the subscription delivers
-- in whatever order, the ids of the frames after the synthetic one ascend strictly from the
-- cursor: no event is shown twice, and none is shown after a later one.
pub events_from-ascending :
    (dbs : ℕ → Db)
    → ((i : ℕ) → IsConsistent (dbs i))
    → (reads last : ℕ) (ws : List Wake)
    → Above last (ids (events_from (sqlite_log dbs) reads last ws))
events_from-ascending dbs sound = events_from-Above (sqlite_log dbs) (sqlite_log-IsReader dbs sound)
