-- ===== src/Waclient.antt =====
-- internal/waclient/waclient.go: the domain types and the interface to WhatsApp.
pub mod Jid
pub mod Client
pub mod Translate
pub mod Login
pub mod Adapter
use whatsmeow_api.Prelude.{ℕ, String, Bool, Option, List}
use whatsmeow_api.Time.{Time}

pub record Status : Type 0 where
  pub connected : Bool
  pub jid : Option String
  pub push_name : Option String
  pub since : Option Time

-- One frame of a login stream: `QREvent` and `PairEvent` have the same fields.
pub record LoginEvent : Type 0 where
  pub code : String
  pub terminal : Bool
  pub outcome : String

pub record Sent : Type 0 where
  pub id : String
  pub timestamp : Time
  pub sender_jid : String

-- The closure that downloads a message's media: whatsmeow's handle of the attachment and its type.
pub record Downloader : Type 0 where
  pub handle : String
  pub mimetype : String

pub record IncomingMessage : Type 0 where
  pub id : String
  pub chat_jid : String
  pub chat_kind : String
  pub sender_jid : String
  pub timestamp : Time
  pub kind : String
  pub body : String
  pub push_name : String
  pub media_downloader : Option Downloader
  pub edit_of_id : String
  pub revoke_of_id : String
  pub reaction_target_id : String
  pub reaction_emoji : String

pub record GroupMember : Type 0 where
  pub jid : String
  pub is_admin : Bool
  pub is_super_admin : Bool

pub record Group : Type 0 where
  pub jid : String
  pub name : String
  pub owner_jid : String
  pub created_at : Time
  pub participants : List GroupMember

pub record ParticipantChange : Type 0 where
  pub jid : String
  pub is_ok : Bool
  pub error : String

pub record IncomingReceipt : Type 0 where
  pub message_ids : List String
  pub chat_jid : String
  pub reader_jid : String
  pub type : String
  pub timestamp : Time

pub record ConnectionStateEvent : Type 0 where
  pub status : Status
  pub reason : String
