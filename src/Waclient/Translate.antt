-- ===== src/Waclient/Translate.antt =====
-- internal/waclient/whatsmeow_adapter.go: whatsmeow's events in the daemon's terms. The event types
-- are whatsmeow's, with the fields that the adapter reads; a JID stands as its text.
use whatsmeow_api.Prelude.{String, Bool, Option, none, some, List, [], map, ◌==◌, if◌then◌else◌}
use whatsmeow_api.Time.{Time, zero_time}
use whatsmeow_api.Waclient.{Downloader, IncomingMessage, IncomingReceipt, Group, GroupMember}
use whatsmeow_api.Waclient.Jid.{chat_kind_from_jid}

pub record ReactionProto : Type 0 where
  pub key_id : String
  pub text : String

pub data ProtocolType : Type 0 where
  revoke message_edit other_protocol : ProtocolType

-- `edited` is the edited message, if there is one, by its `conversation` and its extended text.
pub record EditedProto : Type 0 where
  pub conversation : Option String
  pub extended_text : Option String

pub record ProtocolProto : Type 0 where
  pub type : ProtocolType
  pub key_id : String
  pub edited : Option EditedProto

-- waE2E.Message
pub record MessageProto : Type 0 where
  pub conversation : Option String
  pub extended_text : Option (Option String)
  pub image : Option Downloader
  pub video : Option Downloader
  pub audio : Option Downloader
  pub document : Option Downloader
  pub sticker : Option Downloader
  pub reaction : Option ReactionProto
  pub protocol : Option ProtocolProto

-- events.Message
pub record MessageEvent : Type 0 where
  pub id : String
  pub chat : String
  pub sender : String
  pub is_from_me : Bool
  pub timestamp : Time
  pub push_name : String
  pub message : Option MessageProto

-- The fields that a composite literal leaves out.
abbrev pub envelope : MessageEvent → IncomingMessage
envelope evt = record {
  id = evt.id;
  chat_jid = evt.chat;
  chat_kind = chat_kind_from_jid evt.chat;
  sender_jid = evt.sender;
  timestamp = evt.timestamp;
  kind = "";
  body = "";
  push_name = "";
  media_downloader = none;
  edit_of_id = "";
  revoke_of_id = "";
  reaction_target_id = "";
  reaction_emoji = "";
}

unfoldable pub translate_reaction : MessageEvent → ReactionProto → IncomingMessage
translate_reaction evt rm = record (envelope evt) {
  reaction_target_id = rm.key_id;
  reaction_emoji = rm.text;
}

abbrev pub conversation_of : Option EditedProto → String
conversation_of none = ""
conversation_of (some e) = elim e.conversation [ none ↦ "" | some s ↦ s ]

unfoldable pub translate_protocol : MessageEvent → ProtocolProto → Option IncomingMessage
translate_protocol evt pm = elim pm.type [
  | revoke ↦ some (record (envelope evt) { revoke_of_id = pm.key_id })
  | message_edit ↦
      some (record (envelope evt) { body = conversation_of pm.edited; edit_of_id = pm.key_id })
  | other_protocol ↦ none
]

pub record KindAndBody : Type 0 where
  pub kind : String
  pub body : String
  pub downloader : Option Downloader

abbrev pub media : String → Option Downloader → Option KindAndBody → Option KindAndBody
media kind none rest = rest
media kind (some d) rest = some (record { kind = kind; body = ""; downloader = some d })

abbrev pub text_of : Option (Option String) → Option KindAndBody → Option KindAndBody
text_of (some (some s)) rest = some (record { kind = "text"; body = s; downloader = none })
text_of _ rest = rest

abbrev conversation : Option String → Option KindAndBody → Option KindAndBody
conversation none rest = rest
conversation (some s) rest = some (record { kind = "text"; body = s; downloader = none })

unfoldable pub message_kind_and_body : MessageProto → Option KindAndBody
message_kind_and_body m = conversation m.conversation (
    text_of m.extended_text (
      media "image" m.image (
        media "video" m.video
          (media "audio" m.audio (media "document" m.document (media "sticker" m.sticker none))))))

abbrev of_body : MessageEvent → Option KindAndBody → Option IncomingMessage
of_body evt none = none
of_body evt (some k) = some (record (envelope evt) {
  kind = k.kind;
  body = k.body;
  push_name = evt.push_name;
  media_downloader = k.downloader;
})

abbrev of_protocol : MessageEvent → MessageProto → Option ProtocolProto → Option IncomingMessage
of_protocol evt m (some pm) = translate_protocol evt pm
of_protocol evt m none = of_body evt (message_kind_and_body m)

abbrev of_reaction : MessageEvent → MessageProto → Option ReactionProto → Option IncomingMessage
of_reaction evt m (some rm) = some (translate_reaction evt rm)
of_reaction evt m none = of_protocol evt m m.protocol

abbrev of_message : MessageEvent → Option MessageProto → Option IncomingMessage
of_message evt none = none
of_message evt (some m) = of_reaction evt m m.reaction

-- `none` where the adapter drops the event: our own echoes, and what has neither text nor media.
unfoldable pub translate_incoming : MessageEvent → Option IncomingMessage
unfolding translate_reaction translate_protocol message_kind_and_body
translate_incoming evt = if evt.is_from_me then none else of_message evt evt.message

-- events.Receipt; whatsmeow's type of a delivery is the empty text.
pub record ReceiptEvent : Type 0 where
  pub message_ids : List String
  pub chat : String
  pub sender : String
  pub type : String
  pub timestamp : Time

abbrev receipt_as : ReceiptEvent → String → Option IncomingReceipt
receipt_as evt type = some (record {
  message_ids = evt.message_ids;
  chat_jid = evt.chat;
  reader_jid = evt.sender;
  type = type;
  timestamp = evt.timestamp;
})

unfoldable pub translate_receipt : ReceiptEvent → Option IncomingReceipt
translate_receipt evt =
    if evt.type == ""
    then receipt_as evt "delivered"
    else if evt.type == "read"
    then receipt_as evt "read"
    else if evt.type == "played"
    then receipt_as evt "played"
    else none

-- types.GroupInfo
pub record GroupInfo : Type 0 where
  pub jid : String
  pub name : String
  pub owner_jid : String
  pub group_created : Time
  pub participants : List GroupMember

-- The participants of `GroupInfo` have the fields of `GroupMember`, and the loop copies them.
unfoldable pub translate_group : Option GroupInfo → Group
translate_group none = record {
  jid = "";
  name = "";
  owner_jid = "";
  created_at = zero_time;
  participants = [];
}
translate_group (some info) = record {
  jid = info.jid;
  name = info.name;
  owner_jid = info.owner_jid;
  created_at = info.group_created;
  participants =
      map (λ p. record { jid = p.jid; is_admin = p.is_admin; is_super_admin = p.is_super_admin })
        info.participants;
}
