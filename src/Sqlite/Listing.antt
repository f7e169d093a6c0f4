-- ===== src/Sqlite/Listing.antt =====
-- internal/store/sqlite/messages.go: what `ListByChat` returns.
use mathlib.Core.List.{Perm, perm_middle, append_assoc}
use mathlib.Core.List.Perm
use whatsmeow_api.Prelude.{
  ℕ, zero, suc, ◌≤◌, ◌<◌, ◌≡◌, refl, sym, subst, String, Bool, true, false, not, none, List, [],
  ◌∷◌, ◌++◌, map, keep, take, length, arith, eq_iff, All, All-keep, All-mono, pos, Bool-cases, inl,
  inr, ◌⊎◌,
}
use whatsmeow_api.Time.{Time, is_zero}
use whatsmeow_api.Errors.{ok}
use whatsmeow_api.Store.{Message}
use whatsmeow_api.Order.{order_by}
use whatsmeow_api.Order.Laws.{IsOrdered, order_by-perm, order_by-IsOrdered, All-order_by}
use whatsmeow_api.Sqlite.Tables.{Db, MessageRow}
use whatsmeow_api.Sqlite.Messages
use whatsmeow_api.Sqlite.Messages.{newest_first, list_where, scan_message}

-- A row that a page of a chat may show: it is in the chat, not deleted, and older than the cursor,
-- where there is one.
pub record IsListable (chat_jid : String) (before : Time) (r : MessageRow) : Type 0 where
  pub in_chat : r.chat_jid ≡ chat_jid
  pub live : r.deleted_at ≡ none
  pub older : is_zero before ≡ false → r.ts < before.sec

abbrev pub IsNewestFirst : List MessageRow → Type 0
IsNewestFirst [] = Unit
IsNewestFirst (r ∷ rs) = All (λ s. s.ts ≤ r.ts) rs × IsNewestFirst rs

-- The table falls into the rows that a page of at most `n` shows, those that are left for the next
-- pages, and those that it may not show.
pub record IsPage (chat_jid : String) (n : ℕ) (before : Time) (db : Db) (page : List Message)
    : Type 0 where
  pub shown : List MessageRow
  pub left : List MessageRow
  pub hidden : List MessageRow
  pub all_rows : Perm (shown ++ (left ++ hidden)) db.messages
  pub read : page ≡ map scan_message shown
  pub shown_listable : All (IsListable chat_jid before) shown
  pub left_listable : All (IsListable chat_jid before) left
  pub hidden_not : All (λ r. ¬ IsListable chat_jid before r) hidden
  pub newest : IsNewestFirst (shown ++ left)
  pub full : (length shown ≡ n) ⊎ ((length shown ≤ n) × (left ≡ []))

module _ (chat_jid : String) (before : Time) where
  list_where-IsListable :
      (r : MessageRow) → list_where chat_jid before r ≡ true → IsListable chat_jid before r
  list_where-IsListable r h = record {
    in_chat = ground (arith, eq_iff r.chat_jid chat_jid);
    live = ground arith;
    older = λ z. ground arith;
  }

  not-IsListable :
      (r : MessageRow) → not (list_where chat_jid before r) ≡ true → ¬ IsListable chat_jid before r
  not-IsListable r h l = ground (arith, eq_iff r.chat_jid chat_jid, l.in_chat, l.live, l.older)

newest_first_total : (a b : MessageRow) → newest_first a b ≡ false → newest_first b a ≡ true
newest_first_total a b h = ground arith

newest_first_trans :
    (a b c : MessageRow)
    → newest_first a b ≡ true
    → newest_first b c ≡ true
    → newest_first a c ≡ true
newest_first_trans a b c h k = ground arith

IsOrdered→IsNewestFirst : (rs : List MessageRow) → IsOrdered newest_first rs → IsNewestFirst rs
IsOrdered→IsNewestFirst [] _ = tt
IsOrdered→IsNewestFirst (r ∷ rs) (p, ps) = (
  All-mono (λ s. newest_first r s ≡ true) (λ s. s.ts ≤ r.ts) rs (λ s h. ground arith) p,
  IsOrdered→IsNewestFirst rs ps,
)

module _ {A : Type 0} where
  abbrev after : ℕ → List A → List A
  after zero xs = xs
  after (suc n) [] = []
  after (suc n) (x ∷ xs) = after n xs

  take-after : (n : ℕ) (xs : List A) → take n xs ++ after n xs ≡ xs
  take-after zero xs = refl
  take-after (suc n) [] = refl
  take-after (suc n) (x ∷ xs) = cc (take-after n xs)

  take_full :
      (n : ℕ) (xs : List A)
      → (length (take n xs) ≡ n) ⊎ ((length (take n xs) ≤ n) × (after n xs ≡ []))
  take_full zero xs = inl refl
  take_full (suc n) [] = inr (omega arith, refl)
  take_full (suc n) (x ∷ xs) = elim (take_full n xs) [
    | inl full ↦ inl (omega (arith, full))
    | inr (short, none_left) ↦ inr (omega (arith, short), none_left)
  ]

  All-unappend : (P : A → Type 0) (xs ys : List A) → All P (xs ++ ys) → All P xs × All P ys
  All-unappend P [] ys h = (tt, h)
  All-unappend P (x ∷ xs) ys (p, h) = let (ps, qs) = All-unappend P xs ys h in ((p, ps), qs)

  keep-partition : (p : A → Bool) (xs : List A) → Perm (keep p xs ++ keep (λ x. not (p x)) xs) xs
  keep-partition p [] = Perm.refl _
  keep-partition p (x ∷ xs) = elim (Bool-cases (p x)) [
    | inl chosen ↦ rw chosen (Perm.cons x (keep-partition p xs))
    | inr other ↦ rw other (
        Perm.trans (perm_middle (keep p xs) (keep (λ y. not (p y)) xs))
          (Perm.cons x (keep-partition p xs)))
  ]

-- A limit of `n` gives a page: the table's rows fall into those that the page shows, those that are
-- left for the next pages and those that it may not show, which are the rows of other chats, the
-- deleted ones and, where there is a cursor, those that are not older than it. No row is shown twice.
-- The page is newest first and shows nothing older than what is left, and something is left only if
-- the page has `n` messages; it never has more.
pub list_by_chat-IsPage :
    (chat_jid : String) (n : ℕ) (before : Time) (db : Db)
    → (page : List Message) × (Messages.list_by_chat chat_jid (pos n) before db ≡ ok page)
      × IsPage chat_jid n before db page
unfolding Messages.list_by_chat
list_by_chat-IsPage chat_jid n before db = (
  map scan_message (take n rows),
  refl,
  record {
    shown = take n rows;
    left = after n rows;
    hidden = rest;
    all_rows =
        subst (λ xs. Perm xs db.messages) (append_assoc (take n rows) (after n rows) rest)
          (subst (λ xs. Perm (xs ++ rest) db.messages) (sym (take-after n rows))
            (Perm.trans (Perm.append_right rest (order_by-perm newest_first listed))
              (keep-partition (list_where chat_jid before) db.messages)));
    read = refl;
    shown_listable = listable.0;
    left_listable = listable.1;
    hidden_not =
        All-mono _ (λ r. ¬ IsListable chat_jid before r) rest (not-IsListable chat_jid before)
          (All-keep (λ r. not (list_where chat_jid before r)) db.messages);
    newest = subst IsNewestFirst (sym (take-after n rows)) (IsOrdered→IsNewestFirst rows ordered);
    full = take_full n rows;
  },
)
  where
    listed : List MessageRow
    listed = keep (list_where chat_jid before) db.messages

    rest : List MessageRow
    rest = keep (λ r. not (list_where chat_jid before r)) db.messages

    rows : List MessageRow
    rows = order_by newest_first listed

    ordered : IsOrdered newest_first rows
    ordered = order_by-IsOrdered newest_first newest_first_total newest_first_trans listed

    all_listable : All (IsListable chat_jid before) rows
    all_listable = All-order_by newest_first (IsListable chat_jid before) listed (
        All-mono _ (IsListable chat_jid before) listed (list_where-IsListable chat_jid before)
          (All-keep (list_where chat_jid before) db.messages))

    listable :
        All (IsListable chat_jid before) (take n rows)
        × All (IsListable chat_jid before) (after n rows)
    listable =
        All-unappend (IsListable chat_jid before) (take n rows) (after n rows)
          (subst (All (IsListable chat_jid before)) (sym (take-after n rows)) all_listable)
