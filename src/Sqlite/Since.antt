-- ===== src/Sqlite/Since.antt =====
-- What internal/store/sqlite/events_log.go reads of a log that is in the order of its numbers.
use whatsmeow_api.Prelude.{
  ℕ, suc, zero, ◌≤◌, ◌<◌, ◌≡◌, refl, ◌∙◌, ap, List, [], ◌∷◌, ◌++◌, map, keep, take, ltb, arith,
  Bool-cases, inl, inr, ltb→lt, lt→ltb, le→ltb, pos,
}
use whatsmeow_api.Errors.{ok}
use whatsmeow_api.Order.{order_by, insert}
use whatsmeow_api.Sqlite.Tables.{Db, EventRow}
use whatsmeow_api.Sqlite.Events
use whatsmeow_api.Sqlite.Events.{scan_event, by_seq}
use whatsmeow_api.Sqlite.Consistency.Keys.{IsAscendingFrom}

-- The numbers ascend, all above `low`.
abbrev pub Climbs : ℕ → List EventRow → Type 0
Climbs low [] = Unit
Climbs low (r ∷ rs) = (low < r.seq) × Climbs r.seq rs

pub IsAscendingFrom→Climbs :
    (low last : ℕ) (rows : List EventRow) → IsAscendingFrom low last rows → Climbs low rows
IsAscendingFrom→Climbs low last [] _ = tt
IsAscendingFrom→Climbs low last (r ∷ rs) (p, ps) = (p, IsAscendingFrom→Climbs r.seq last rs ps)

Climbs-mono :
    (low high : ℕ) (rows : List EventRow) → low ≤ high → Climbs high rows → Climbs low rows
Climbs-mono low high [] _ _ = tt
Climbs-mono low high (r ∷ rs) le (p, ps) = (omega (arith, le, p), ps)

-- The rows above a number.
abbrev pub above : ℕ → List EventRow → List EventRow
above n = keep (λ r. ltb n r.seq)

above-all : (n : ℕ) (rows : List EventRow) → Climbs n rows → above n rows ≡ rows
above-all n [] _ = refl
above-all n (r ∷ rs) (p, ps) =
    rw (lt→ltb n r.seq p)
      (ap (λ xs. r ∷ xs) (above-all n rs (Climbs-mono n r.seq rs (omega (arith, p)) ps)))

pub above-Climbs : (low n : ℕ) (rows : List EventRow) → Climbs low rows → Climbs n (above n rows)
above-Climbs low n [] _ = tt
above-Climbs low n (r ∷ rs) (p, ps) = elim (Bool-cases (ltb n r.seq)) [
  | inr not_yet ↦ rw not_yet (above-Climbs r.seq n rs ps)
  | inl here ↦
      let lt : n < r.seq = ltb→lt n r.seq here in
      rw (here, above-all n rs (Climbs-mono n r.seq rs (omega (arith, lt)) ps)) (lt, ps)
]

-- Rows above the larger of two numbers are above the smaller.
pub above-above :
    (low high : ℕ) (rows : List EventRow)
    → low ≤ high
    → above high (above low rows) ≡ above high rows
above-above low high [] le = refl
above-above low high (r ∷ rs) le = ground (arith, above-above low high rs le)

pub order_by-Climbs :
    (low : ℕ) (rows : List EventRow) → Climbs low rows → order_by by_seq rows ≡ rows
unfolding order_by
order_by-Climbs low [] _ = refl
order_by-Climbs low (r ∷ rs) (p, ps) =
    ap (insert by_seq r) (order_by-Climbs r.seq rs ps) ∙ front r rs ps
  where
    front : (x : EventRow) (xs : List EventRow) → Climbs x.seq xs → insert by_seq x xs ≡ x ∷ xs
    front x [] _ = refl
    front x (y ∷ ys) (q, qs) = ground arith

-- A read returns the first `n` rows above its number.
pub since_seq_lem :
    (last n : ℕ) (db : Db)
    → Climbs 0 db.events_log
    → Events.since_seq last (pos n) db ≡ ok (map scan_event (take n (above last db.events_log)))
unfolding Events.since_seq
since_seq_lem last n db c =
    rw (order_by-Climbs last (above last db.events_log) (above-Climbs 0 last db.events_log c)) refl

pub Climbs-take : (low n : ℕ) (rows : List EventRow) → Climbs low rows → Climbs low (take n rows)
Climbs-take low zero rows _ = tt
Climbs-take low (suc n) [] _ = tt
Climbs-take low (suc n) (r ∷ rs) (p, ps) = (p, Climbs-take r.seq n rs ps)

abbrev pub drop : ℕ → List EventRow → List EventRow
drop zero rows = rows
drop (suc n) [] = []
drop (suc n) (r ∷ rs) = drop n rs

pub take-drop : (n : ℕ) (rows : List EventRow) → take n rows ++ drop n rows ≡ rows
take-drop zero rows = refl
take-drop (suc n) [] = refl
take-drop (suc n) (r ∷ rs) = ap (λ xs. r ∷ xs) (take-drop n rs)

-- The number of the last row.
abbrev pub last_row : ℕ → List EventRow → ℕ
last_row low [] = low
last_row low (r ∷ rs) = last_row r.seq rs

pub last_row_up : (low : ℕ) (rows : List EventRow) → Climbs low rows → low ≤ last_row low rows
last_row_up low [] _ = omega arith
last_row_up low (r ∷ rs) (p, ps) = omega (arith, p, last_row_up r.seq rs ps)

-- What is above the last of the first `n` rows is what follows them.
pub above-last_row :
    (low n : ℕ) (rows : List EventRow)
    → Climbs low rows
    → above (last_row low (take n rows)) rows ≡ drop n rows
above-last_row low zero rows c = above-all low rows c
above-last_row low (suc n) [] c = refl
above-last_row low (suc n) (r ∷ rs) (p, ps) =
    rw
      (le→ltb (last_row r.seq (take n rs)) r.seq
        (last_row_up r.seq (take n rs) (Climbs-take r.seq n rs ps)))
      (above-last_row r.seq n rs ps)
