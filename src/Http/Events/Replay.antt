-- ===== src/Http/Events/Replay.antt =====
-- The replay of the event stream is complete, and it ends.
use mathlib.Core.List.{append-nil}
use Prim.Native.Nat.{min}
use whatsmeow_api.Prelude.{
  ℕ, suc, zero, ◌+◌, ◌-◌, ◌≤◌, ◌<◌, ◌≡◌, refl, ◌∙◌, ap, sym, true, List, [], ◌∷◌, ◌++◌, map, take,
  subst, length, length-keep, length-take, ltb, ltb→lt, eqb, arith, Bool-cases, inl, inr,
}
use whatsmeow_api.Errors.{ok}
use whatsmeow_api.Sqlite.Tables.{Db, EventRow}
use whatsmeow_api.Sqlite.Events.{scan_event}
use whatsmeow_api.Sqlite.Consistency.Updates.{IsConsistent}
use whatsmeow_api.Sqlite.Since.{
  Climbs, above, above-Climbs, above-above, since_seq_lem, IsAscendingFrom→Climbs, drop, take-drop,
  last_row, above-last_row, last_row_up, Climbs-take,
}
use whatsmeow_api.Http.Events.{
  Output, logged_frame, replay_batch, replay_round, caught_up, Replayed, last_of, replay,
}
use whatsmeow_api.Http.Events.Ascending.{sqlite_log}

abbrev pub row_frame : EventRow → Output
row_frame r = logged_frame (scan_event r)

length-drop : (n : ℕ) (rows : List EventRow) → length (drop n rows) ≡ length rows - n
length-drop zero rows = omega arith
length-drop (suc n) [] = omega arith
length-drop (suc n) (r ∷ rs) = omega (arith, length-drop n rs)

length-scan : (rows : List EventRow) → length (map scan_event rows) ≡ length rows
length-scan [] = refl
length-scan (r ∷ rs) = omega (arith, length-scan rs)

last_of-scan :
    (low : ℕ) (rows : List EventRow) → last_of low (map scan_event rows) ≡ last_row low rows
last_of-scan low [] = refl
last_of-scan low (r ∷ rs) = last_of-scan r.seq rs

frames-scan : (rows : List EventRow) → map logged_frame (map scan_event rows) ≡ map row_frame rows
frames-scan [] = refl
frames-scan (r ∷ rs) = ap (λ os. row_frame r ∷ os) (frames-scan rs)

map-append-frames :
    (xs ys : List EventRow) → map row_frame (xs ++ ys) ≡ map row_frame xs ++ map row_frame ys
map-append-frames [] ys = refl
map-append-frames (x ∷ xs) ys = ap (λ os. row_frame x ∷ os) (map-append-frames xs ys)

short_take : (n : ℕ) (rows : List EventRow) → length (take n rows) < n → drop n rows ≡ []
short_take zero rows h = absurd (omega (arith, h))
short_take (suc n) [] h = refl
short_take (suc n) (r ∷ rs) h = short_take n rs (omega (arith, h))

-- Caught up, and every one of the rows was written.
record Complete (rows : List EventRow) (r : Replayed) : Type 0 where
  ended : r.end ≡ caught_up
  whole : r.out ≡ map row_frame rows

short_is_all : (n : ℕ) (rows : List EventRow) → length (take n rows) < n → take n rows ≡ rows
short_is_all n rows h =
    sym (append-nil (take n rows))
    ∙ ap (λ xs. take n rows ++ xs) (sym (short_take n rows h))
    ∙ take-drop n rows

nil_of_length : (rows : List EventRow) → eqb (length (map scan_event rows)) 0 ≡ true → rows ≡ []
nil_of_length [] h = refl
nil_of_length (r ∷ rs) h = absurd (ground arith)

all_frames :
    (n : ℕ) (rows : List EventRow)
    → ltb (length (map scan_event (take n rows))) n ≡ true
    → map logged_frame (map scan_event (take n rows)) ≡ map row_frame rows
all_frames n rows h =
    frames-scan (take n rows)
    ∙ ap (map row_frame) (
        short_is_all n rows (
          omega
            (arith, ltb→lt (length (map scan_event (take n rows))) n h, length-scan (take n rows))))

-- A round over `rows`, of which it reads the first ones.
round-Complete :
    (last n : ℕ) (rows : List EventRow) (rest : ℕ → Replayed)
    → n ≡ replay_batch
    → (length (take n rows) ≡ n → Complete (drop n rows) (rest (last_row last (take n rows))))
    → Complete rows (replay_round last (ok (map scan_event (take n rows))) rest)
unfolding replay_round
round-Complete last n rows rest size more =
    elim (Bool-cases (eqb (length (map scan_event (take n rows))) 0)) [
      | inl none_left ↦ rw none_left (record {
        ended = refl;
        whole =
            ap (map row_frame) (sym (nil_of_length (take n rows) none_left))
            ∙ sym (frames-scan (take n rows))
            ∙ all_frames n rows (ground (arith, size));
      })
      | inr some_left ↦
          elim (Bool-cases (ltb (length (map scan_event (take n rows))) replay_batch)) [
            | inl short ↦
                rw (some_left, short)
                  (record {
                    ended = refl;
                    whole = all_frames n rows (
                        subst (λ m. ltb (length (map scan_event (take n rows))) m ≡ true) (sym size)
                          short);
                  })
            | inr full ↦
                let all_read : length (take n rows) ≡ n =
                  ground (arith, size, length-scan (take n rows), length-take n rows) in
                let done = more all_read in
                rw (some_left, full, last_of-scan last (take n rows))
                  (record {
                    ended = done.ended;
                    whole =
                        ap (λ os. os ++ (rest (last_row last (take n rows))).out)
                          (frames-scan (take n rows))
                        ∙ ap (λ os. map row_frame (take n rows) ++ os) done.whole
                        ∙ sym (map-append-frames (take n rows) (drop n rows))
                        ∙ ap (map row_frame) (take-drop n rows);
                  })
          ]
    ]

fewer :
    (size reads : ℕ) {read left : ℕ}
    → size < suc reads
    → read ≡ min replay_batch size
    → read ≡ replay_batch
    → left ≡ size - replay_batch
    → left < reads
fewer size reads h e full l = omega (arith, h, e, full, l)

module _ (db : Db) (climbs : Climbs 0 db.events_log) where
  replays :
      (reads i last : ℕ)
      → length (above last db.events_log) < reads
      → Complete (above last db.events_log) (replay (sqlite_log (λ _. db)) reads i last)
  unfolding replay
  replays zero i last h = absurd (omega (arith, h))
  replays (suc reads) i last h =
      let rows = above last db.events_log in
      let c : Climbs last rows = above-Climbs 0 last db.events_log climbs in
      rw (since_seq_lem last replay_batch db climbs) (
        round-Complete last replay_batch rows (replay (sqlite_log (λ _. db)) reads (i + 1)) refl
          (λ full.
            let reached = last_row last (take replay_batch rows) in
            let up : last ≤ reached =
              last_row_up last (take replay_batch rows) (Climbs-take last replay_batch rows c) in
            let left : above reached db.events_log ≡ drop replay_batch rows =
              sym (above-above last reached db.events_log up)
              ∙ above-last_row last replay_batch rows c in
            subst (λ xs. Complete xs (replay (sqlite_log (λ _. db)) reads (i + 1) reached)) left
              (replays reads (i + 1) reached (
                fewer (length rows) reads h (length-take replay_batch rows) full
                  (ap length left ∙ length-drop replay_batch rows)))))

-- A replay of a consistent log that nobody writes to ends, after one read more than there are
-- events at most, and writes every event above the cursor, once and in order.
pub replay_complete :
    (db : Db)
    → IsConsistent db
    → (reads last : ℕ) → length db.events_log < reads
    → ((replay (sqlite_log (λ _. db)) reads 0 last).end ≡ caught_up)
      × ((replay (sqlite_log (λ _. db)) reads 0 last).out
          ≡ map row_frame (above last db.events_log))
replay_complete db sound reads last enough =
    let done =
      replays db (IsAscendingFrom→Climbs 0 db.last_seq db.events_log sound.seqs) reads 0 last
        (omega (arith, enough, length-keep (λ r. ltb last r.seq) db.events_log)) in
    (done.ended, done.whole)
