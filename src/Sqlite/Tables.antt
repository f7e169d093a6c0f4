-- ===== src/Sqlite/Tables.antt =====
-- The rows of internal/store/migrations/sqlite/*.up.sql, with NULL as `none`, and the database.
-- A statement returns the new database or an error, and an error changes nothing.
use whatsmeow_api.Prelude.{
  ℕ, String, Bool, true, false, ◌&&◌, Option, none, some, List, ◌==◌, if◌then◌else◌, [],
}
use whatsmeow_api.Json.{Json}
use whatsmeow_api.Table

pub record ChatRow : Type 0 where
  pub jid : String
  pub name : Option String
  pub kind : String
  pub last_msg_at : Option ℕ
  pub unread_count : ℕ
  pub archived : ℕ

pub record MessageRow : Type 0 where
  pub id : String
  pub chat_jid : String
  pub sender_jid : String
  pub ts : ℕ
  pub kind : String
  pub body : Option String
  pub reply_to : Option String
  pub edited_at : Option ℕ
  pub deleted_at : Option ℕ
  pub raw_meta : Option String

pub record ContactRow : Type 0 where
  pub jid : String
  pub push_name : Option String
  pub full_name : Option String
  pub business_name : Option String

pub record MediaRow : Type 0 where
  pub message_id : String
  pub mime : String
  pub size : ℕ
  pub sha256 : String
  pub path : String

pub record EventRow : Type 0 where
  pub seq : ℕ
  pub ts : ℕ
  pub type : String
  pub payload : Json

pub record KvRow : Type 0 where
  pub key : String
  pub value : String

pub record ReactionRow : Type 0 where
  pub message_id : String
  pub sender_jid : String
  pub emoji : String
  pub ts : ℕ

pub record ReceiptRow : Type 0 where
  pub message_id : String
  pub reader_jid : String
  pub type : String
  pub ts : ℕ

-- `last_seq` is the table's AUTOINCREMENT counter: the largest seq that was ever given out.
pub record Db : Type 0 where
  pub chats : List ChatRow
  pub messages : List MessageRow
  pub contacts : List ContactRow
  pub media : List MediaRow
  pub events_log : List EventRow
  pub last_seq : ℕ
  pub kv : List KvRow
  pub reactions : List ReactionRow
  pub receipts : List ReceiptRow

-- The database after the migrations.
abbrev pub empty_db : Db
empty_db = record {
  chats = [];
  messages = [];
  contacts = [];
  media = [];
  events_log = [];
  last_seq = 0;
  kv = [];
  reactions = [];
  receipts = [];
}

-- Primary keys.
abbrev pub chat_key : ChatRow → String
chat_key r = r.jid

abbrev pub message_key : MessageRow → String
message_key r = r.id

abbrev pub contact_key : ContactRow → String
contact_key r = r.jid

abbrev pub media_key : MediaRow → String
media_key r = r.message_id

abbrev pub kv_key : KvRow → String
kv_key r = r.key

abbrev pub reaction_key : ReactionRow → String × String
reaction_key r = (r.message_id, r.sender_jid)

abbrev pub receipt_key : ReceiptRow → String × String × String
receipt_key r = (r.message_id, r.reader_jid, r.type)

abbrev pub pair_eq : String × String → String × String → Bool
pair_eq (a, b) (c, d) = a == c && b == d

abbrev pub triple_eq : String × String × String → String × String × String → Bool
triple_eq (a, b, c) (d, e, f) = a == d && b == e && c == f

abbrev pub is_some {ℓ} : {A : Type ℓ} → Option A → Bool
is_some none = false
is_some (some _) = true

-- `REFERENCES chats(jid)` and `REFERENCES messages(id)`, which `foreign_keys(1)` enforces.
abbrev pub has_chat : String → Db → Bool
has_chat jid db = is_some (Table.find chat_key ◌==◌ jid db.chats)

abbrev pub has_message : String → Db → Bool
has_message id db = is_some (Table.find message_key ◌==◌ id db.messages)

-- sqlite/time.go
abbrev pub nullable_string : String → Option String
nullable_string s = if s == "" then none else some s

abbrev pub bool_to_int : Bool → ℕ
bool_to_int b = if b then 1 else 0

-- `sql.NullString.String`
abbrev pub null_string : Option String → String
null_string none = ""
null_string (some s) = s
