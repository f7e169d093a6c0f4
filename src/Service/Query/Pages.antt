-- ===== src/Service/Query/Pages.antt =====
-- How long a page may be.
use whatsmeow_api.Prelude.{
  ℕ, ◌≤◌, ◌≡◌, subst, String, Bool, ◌||◌, Option, none, some, List, map, take, length, length-map,
  length-take, ltb, arith, Bool-cases, inl, inr, ℤ, pos, negsuc,
}
use whatsmeow_api.Text.{is_blank}
use whatsmeow_api.Time.{Time}
use whatsmeow_api.Errors.{Error, ok, err, ◌>>=◌, ok-injective}
use whatsmeow_api.Store.{Chat, Message, Contact}
use whatsmeow_api.Sqlite.Tables.{Db}
use whatsmeow_api.Sqlite.Store.{Engine, bundle}
use whatsmeow_api.Sqlite.Chats
use whatsmeow_api.Sqlite.Messages
use whatsmeow_api.Sqlite.Contacts
use whatsmeow_api.Order.{limit_rows}
use whatsmeow_api.Service.World.{validate_limit}
use whatsmeow_api.Service.Query.{list_chats, list_messages, search_messages, search_contacts}

page_length :
    {A B : Type 0} (f : A → B) (k : ℕ) (rows : List A) (xs : List B)
    → ok (map f (take k rows)) ≡ ok xs
    → length xs ≤ k
page_length f k rows xs h =
    subst (λ ys. length ys ≤ k) (ok-injective h)
      (omega (arith, length-map f (take k rows), length-take k rows))

err_ok : {A : Type 0} {e : Error} {a : A} → err e ≡ ok a → ⊥
err_ok e = absurd (cc)

-- A query with a LIMIT that is made after the check of the limit.
limited :
    {A B : Type 0} (f : A → B) (n : ℤ) (rows : List A) (xs : List B)
    → (validate_limit n >>= λ _. ok (map f (limit_rows n rows))) ≡ ok xs
    → length xs ≤ 100
unfolding validate_limit
limited f (negsuc n) rows xs h = absurd (err_ok h)
limited f (pos k) rows xs h = elim (Bool-cases (ltb k 1 || ltb 100 k)) [
  | inl outside ↦ absurd (err_ok (rw outside at h))
  | inr inside ↦
      let short : length xs ≤ k = page_length f k rows xs (rw inside at h) in ground arith
]

-- A search, made after the check of the limit.
searched :
    (found : Option (String → Bool)) (k : ℕ) (db : Db) (page : List Message)
    → Messages.found_rows found (pos k) db ≡ ok page
    → length page ≤ k
unfolding Messages.found_rows
searched none k db page h = absurd (err_ok h)
searched (some matches) k db page h = page_length _ k _ page h

search_limited :
    (fts : String → Option (String → Bool)) (q : String) (n : ℤ) (db : Db) (page : List Message)
    → (validate_limit n >>= λ _. Messages.search fts q n db) ≡ ok page
    → length page ≤ 100
unfolding validate_limit Messages.search
search_limited fts q (negsuc n) db page h = absurd (err_ok h)
search_limited fts q (pos k) db page h = elim (Bool-cases (ltb k 1 || ltb 100 k)) [
  | inl outside ↦ absurd (err_ok (rw outside at h))
  | inr inside ↦
      let short : length page ≤ k = searched (fts q) k db page (rw inside at h) in ground arith
]

module _ (g : Engine) (db : Db) where
  -- On the SQLite store, no page of chats, of a chat's messages, of found messages or of found
  -- contacts has more than 100 entries, whatever limit is asked for.
  pub pages-bounded :
      (n : ℤ)
      → ((before : Time) (archived : Bool) (page : List Chat)
          → list_chats (bundle g) before n archived db ≡ ok page
          → length page ≤ 100)
        × ((jid : String) (before : Time) (page : List Message)
            → list_messages (bundle g) jid before n db ≡ ok page
            → length page ≤ 100)
        × ((q : String) (page : List Message)
            → search_messages (bundle g) q n db ≡ ok page
            → length page ≤ 100)
        × ((q : String) (page : List Contact)
            → search_contacts (bundle g) q n db ≡ ok page
            → length page ≤ 100)
  unfolding list_chats Chats.list list_messages Messages.list_by_chat search_messages
      search_contacts Contacts.search
  pages-bounded n = (
    λ before archived page h. limited _ n _ page h,
    λ jid before page h. elim (Bool-cases (is_blank jid)) [
      | inl blank ↦ absurd (err_ok (rw blank at h))
      | inr named ↦ limited _ n _ page (rw named at h)
    ],
    λ q page h. elim (Bool-cases (is_blank q)) [
      | inl blank ↦ absurd (err_ok (rw blank at h))
      | inr named ↦ search_limited g.fts q n db page (rw named at h)
    ],
    λ q page h. elim (Bool-cases (is_blank q)) [
      | inl blank ↦ absurd (err_ok (rw blank at h))
      | inr named ↦ limited _ n _ page (rw named at h)
    ],
  )
