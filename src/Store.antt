-- ===== src/Store.antt =====
-- internal/store/store.go: the records of the app store and the interfaces of its parts.
pub mod Bundle
use whatsmeow_api.Prelude.{ℕ, String, Bool, Option}
use whatsmeow_api.Time.{Time}
use whatsmeow_api.Json.{Json}

-- One conversation, direct or group.
pub record Chat : Type 0 where
  pub jid : String
  pub name : String
  pub kind : String
  pub last_msg_at : Time
  pub unread_count : ℕ
  pub archived : Bool

-- One persisted message in a chat.
pub record Message : Type 0 where
  pub id : String
  pub chat_jid : String
  pub sender_jid : String
  pub timestamp : Time
  pub kind : String
  pub body : String
  pub reply_to : String
  pub edited_at : Option Time
  pub deleted_at : Option Time
  pub raw_meta : String

pub record Contact : Type 0 where
  pub jid : String
  pub push_name : String
  pub full_name : String
  pub business_name : String

-- An attachment on disk.
pub record MediaRef : Type 0 where
  pub message_id : String
  pub mime : String
  pub size : ℕ
  pub sha256 : String
  pub path : String

pub record Reaction : Type 0 where
  pub message_id : String
  pub sender_jid : String
  pub emoji : String
  pub timestamp : Time

-- One row of events_log. The payload is the JSON value whose text the row holds.
pub record EventLogEntry : Type 0 where
  pub seq : ℕ
  pub time : Time
  pub type : String
  pub payload : Json

pub record Receipt : Type 0 where
  pub message_id : String
  pub reader_jid : String
  pub type : String
  pub timestamp : Time
