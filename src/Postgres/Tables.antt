-- ===== src/Postgres/Tables.antt =====
-- The rows of internal/store/migrations/postgres/*.up.sql where they differ from those of SQLite: a
-- TIMESTAMPTZ holds an instant and a BOOLEAN a truth value. The other tables have the same columns.
use whatsmeow_api.Prelude.{
  ℕ, String, Bool, true, not, ◌&&◌, Option, none, some, List, [], ◌∷◌, ltb, eqb, leb, ◌==◌,
  if◌then◌else◌, ℤ, pos, negsuc, take,
}
use whatsmeow_api.Text.{codes}
use whatsmeow_api.Time.{Time, is_zero}
use whatsmeow_api.Errors.{Result, ok, err, failure}
use whatsmeow_api.Store.{Chat, Message, Contact, MediaRef, Reaction, Receipt}
use whatsmeow_api.Json.{Json}
use whatsmeow_api.Table
use whatsmeow_api.Sqlite.Tables.{ContactRow, MediaRow, KvRow, is_some}

pub record PgChat : Type 0 where
  pub jid : String
  pub name : Option String
  pub kind : String
  pub last_msg_at : Option Time
  pub unread_count : ℕ
  pub archived : Bool

pub record PgMessage : Type 0 where
  pub id : String
  pub chat_jid : String
  pub sender_jid : String
  pub ts : Time
  pub kind : String
  pub body : Option String
  pub reply_to : Option String
  pub edited_at : Option Time
  pub deleted_at : Option Time
  pub raw_meta : Option String

pub record PgEvent : Type 0 where
  pub seq : ℕ
  pub ts : Time
  pub type : String
  pub payload : Json

pub record PgReaction : Type 0 where
  pub message_id : String
  pub sender_jid : String
  pub emoji : String
  pub ts : Time

pub record PgReceipt : Type 0 where
  pub message_id : String
  pub reader_jid : String
  pub type : String
  pub ts : Time

-- `last_seq` is the sequence of the BIGSERIAL column.
pub record PgDb : Type 0 where
  pub chats : List PgChat
  pub messages : List PgMessage
  pub contacts : List ContactRow
  pub media : List MediaRow
  pub events_log : List PgEvent
  pub last_seq : ℕ
  pub kv : List KvRow
  pub reactions : List PgReaction
  pub receipts : List PgReceipt

-- What the server, the driver and Go's case tables compute: the instant that a TIMESTAMPTZ keeps of
-- the one it is given, whether the indices and the full-text vector of a table have room for texts,
-- the collation, LIKE and LOWER, and full-text matching with its rank.
pub record PgEngine : Type 0 where
  pub kept : Time → Time
  pub has_room : String → List String → Bool
  pub collate : String → String → Bool
  pub to_lower : String → String
  pub lower : String → String
  pub like : String → String → Bool
  pub tsquery : String → String → Bool
  pub ts_rank : String → String → ℕ

abbrev pub pg_chat_key : PgChat → String
pg_chat_key r = r.jid

abbrev pub pg_message_key : PgMessage → String
pg_message_key r = r.id

abbrev pub pg_reaction_key : PgReaction → String × String
pg_reaction_key r = (r.message_id, r.sender_jid)

abbrev pub pg_receipt_key : PgReceipt → String × String × String
pg_receipt_key r = (r.message_id, r.reader_jid, r.type)

-- The foreign keys.
abbrev pub pg_has_chat : String → PgDb → Bool
pg_has_chat jid db = is_some (Table.find pg_chat_key ◌==◌ jid db.chats)

abbrev pub pg_has_message : String → PgDb → Bool
pg_has_message id db = is_some (Table.find pg_message_key ◌==◌ id db.messages)

-- postgres/time.go
abbrev pub time_or_nil : Time → Option Time
time_or_nil t = if is_zero t then none else some t

abbrev pub ptr_time_or_nil : Option Time → Option Time
ptr_time_or_nil none = none
ptr_time_or_nil (some t) = time_or_nil t

-- The order of two instants.
abbrev pub time_ltb : Time → Time → Bool
time_ltb a b = if eqb a.sec b.sec then ltb a.nsec b.nsec else ltb a.sec b.sec

abbrev pub time_leb : Time → Time → Bool
time_leb a b = if eqb a.sec b.sec then leb a.nsec b.nsec else ltb a.sec b.sec

-- A negative LIMIT is an error of the server.
unfoldable pub limited {ℓ} : {A : Type ℓ} → ℤ → List A → Result (List A)
limited (pos n) xs = ok (take n xs)
limited (negsuc n) xs = err (failure "LIMIT must not be negative")

-- A TEXT holds no NUL, and neither does a text that a query is given.
abbrev pub no_nul : List ℕ → Bool
no_nul [] = true
no_nul (c ∷ cs) = not (eqb c 0) && no_nul cs

abbrev pub is_text : String → Bool
is_text s = no_nul (codes s)

abbrev pub are_texts : List String → Bool
are_texts [] = true
are_texts (s ∷ ss) = is_text s && are_texts ss

-- The largest INTEGER.
abbrev pub max_integer : ℕ
max_integer = 2147483647

-- The driver or the server refuses a value, or the statement runs.
abbrev pub taken {ℓ} : {A : Type ℓ} → Bool → Result A → Result A
taken fits r = if fits then r else err (failure "a value is refused")

-- Whether the columns of a row take its values.
module _ (g : PgEngine) where
  abbrev pub chat_fits : Chat → Bool
  chat_fits c =
      are_texts (c.jid ∷ c.name ∷ c.kind ∷ [])
      && leb c.unread_count max_integer
      && g.has_room "chats" (c.jid ∷ [])

  abbrev pub message_fits : Message → Bool
  message_fits m =
      are_texts (m.id ∷ m.chat_jid ∷ m.sender_jid ∷ m.kind ∷ m.body ∷ m.reply_to ∷ m.raw_meta ∷ [])
      && g.has_room "messages" (m.id ∷ m.chat_jid ∷ m.body ∷ [])

  abbrev pub contact_fits : Contact → Bool
  contact_fits c =
      are_texts (c.jid ∷ c.push_name ∷ c.full_name ∷ c.business_name ∷ [])
      && g.has_room "contacts" (c.jid ∷ [])

  abbrev pub media_fits : MediaRef → Bool
  media_fits m =
      are_texts (m.message_id ∷ m.mime ∷ m.sha256 ∷ m.path ∷ [])
      && g.has_room "media" (m.message_id ∷ [])

  abbrev pub value_fits : String → String → Bool
  value_fits key value = are_texts (key ∷ value ∷ []) && g.has_room "kv" (key ∷ [])

  abbrev pub reaction_fits : Reaction → Bool
  reaction_fits r =
      are_texts (r.message_id ∷ r.sender_jid ∷ r.emoji ∷ [])
      && g.has_room "reactions" (r.message_id ∷ r.sender_jid ∷ [])

  abbrev pub receipt_fits : Receipt → Bool
  receipt_fits r =
      are_texts (r.message_id ∷ r.reader_jid ∷ r.type ∷ [])
      && g.has_room "receipts" (r.message_id ∷ r.reader_jid ∷ r.type ∷ [])
