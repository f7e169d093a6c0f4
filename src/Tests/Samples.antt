-- ===== src/Tests/Samples.antt =====
-- A small world to evaluate the development on: a WhatsApp that accepts whatever it is sent, a disk
-- that stores whatever it is given, and a store with one chat and one message of ours in it.
use whatsmeow_api.Prelude.{ℕ, suc, String, true, false, none, some, List, [], ◌∷◌, ◌==◌}
use whatsmeow_api.Time.{Time}
use whatsmeow_api.Errors.{ok, err, not_connected}
use whatsmeow_api.Json
use whatsmeow_api.Store.{Chat, Message, Contact}
use whatsmeow_api.Sqlite.Tables.{Db, empty_db}
use whatsmeow_api.Sqlite.Consistency.{Statement, put_chat, put_message}
use whatsmeow_api.Sqlite.Store.{Engine, bundle}
use whatsmeow_api.Broadcaster.{Event, Channel, Broadcaster}
use whatsmeow_api.Waclient.{Sent, Group, IncomingMessage}
use whatsmeow_api.Waclient.Client.{WaClient}
use whatsmeow_api.Service.World.{MediaDisk, World}

abbrev pub noon : Time
noon = record { sec = 1000; nsec = 5 }

abbrev pub our_jid : String
our_jid = "4912345678@s.whatsapp.net"

abbrev pub ann : String
ann = "4911111111@s.whatsapp.net"

abbrev pub bob : String
bob = "4922222222@s.whatsapp.net"

abbrev pub sent : Sent
sent = record { id = "out-1"; timestamp = noon; sender_jid = our_jid }

abbrev group : Group
group = record {
  jid = "1@g.us";
  name = "";
  owner_jid = our_jid;
  created_at = noon;
  participants = [];
}

-- `Net` counts what was sent.
abbrev pub accepting : WaClient
accepting = record {
  Net = ℕ;
  status =
      λ n. record { connected = true; jid = some our_jid; push_name = none; since = some noon };
  login_qr = λ n. (ok [], n);
  login_phone = λ phone n. (ok [], n);
  logout = λ n. (ok tt, n);
  send_text = λ jid text reply_to n. (ok sent, suc n);
  send_media = λ jid kind caption filename mime body n. (ok sent, suc n);
  send_edit = λ jid id text n. (ok sent, suc n);
  send_revoke = λ jid id n. (ok sent, suc n);
  send_reaction = λ jid id emoji n. (ok tt, suc n);
  mark_read = λ jid sender id at n. (ok tt, suc n);
  send_chat_presence = λ jid state n. (ok tt, suc n);
  create_group = λ name members n. (ok group, suc n);
  get_group_info = λ jid n. (ok group, n);
  update_group_participants = λ jid action members n. (ok [], suc n);
  leave_group = λ jid n. (ok tt, suc n);
  download = λ d n. err not_connected;
}

abbrev pub disk : MediaDisk
disk = record { Disk = ℕ; write = λ body mime n. (ok ("00", "media/00"), suc n) }

abbrev pub engine : Engine
engine = record {
  fts = λ query. some (λ body. body == query);
  to_lower = λ s. s;
  lower = λ s. s;
  like = λ pattern s. s == pattern;
}

abbrev pub chat_with : String → Chat
chat_with jid = record {
  jid = jid;
  name = "";
  kind = "user";
  last_msg_at = noon;
  unread_count = 0;
  archived = false;
}

abbrev pub message_of : String → String → String → Message
message_of id chat_jid sender_jid = record {
  id = id;
  chat_jid = chat_jid;
  sender_jid = sender_jid;
  timestamp = noon;
  kind = "text";
  body = "hello";
  reply_to = "";
  edited_at = none;
  deleted_at = none;
  raw_meta = "";
}

abbrev pub ann_contact : Contact
ann_contact = record { jid = ann; push_name = "Ann"; full_name = ""; business_name = "" }

-- What put the chat with Ann, and our message "m-1" in it, into the store.
abbrev pub history : List Statement
history = put_chat (chat_with ann) ∷ put_message (message_of "m-1" ann our_jid) ∷ []

abbrev pub db : Db
db = record empty_db {
  chats =
      record {
        jid = ann;
        name = some "";
        kind = "user";
        last_msg_at = some 1000;
        unread_count = 0;
        archived = 0;
      }
      ∷ [];
  messages =
      record {
        id = "m-1";
        chat_jid = ann;
        sender_jid = our_jid;
        ts = 1000;
        kind = "text";
        body = some "hello";
        reply_to = none;
        edited_at = none;
        deleted_at = none;
        raw_meta = none;
      }
      ∷ [];
  events_log =
      record { seq = 1; ts = 1000; type = "message.received"; payload = Json.null }
      ∷ record { seq = 3; ts = 1001; type = "message.deleted"; payload = Json.null }
      ∷ [];
  last_seq = 3;
}

abbrev pub event : ℕ → Event
event seq = record { seq = seq; kind = "message.received"; payload = Json.null }

-- One subscriber, whose id is 1.
abbrev pub channel : Channel
channel = record { id = 1; buffer = event 1 ∷ []; is_open = true }

abbrev pub broadcaster : Broadcaster
broadcaster = record { channels = channel ∷ []; next = 1; buf_size = 2 }

abbrev pub world : World (bundle engine) accepting disk
world = record {
  store = db;
  net = 0;
  disk = 0;
  broadcaster = some broadcaster;
  spawned = [];
  clock = noon;
}

-- A message from Bob, whom the store does not know yet.
abbrev pub from_bob : IncomingMessage
from_bob = record {
  id = "in-1";
  chat_jid = bob;
  chat_kind = "user";
  sender_jid = bob;
  timestamp = noon;
  kind = "text";
  body = "hi";
  push_name = "Bob";
  media_downloader = none;
  edit_of_id = "";
  revoke_of_id = "";
  reaction_target_id = "";
  reaction_emoji = "";
}
