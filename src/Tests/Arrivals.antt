-- ===== src/Tests/Arrivals.antt =====
-- The theorems on what arrives from WhatsApp, at concrete messages.
use whatsmeow_api.Prelude.{◌≡◌, refl, false, none}
use whatsmeow_api.Errors.{ok}
use whatsmeow_api.Store.{Chat}
use whatsmeow_api.Sqlite.Chats
use whatsmeow_api.Sqlite.Messages
use whatsmeow_api.Sqlite.RoundTrip.{stored_message}
use whatsmeow_api.Service.Incoming.{handle_incoming, received_message}
use whatsmeow_api.Service.Incoming.Plain.{
  IsPlain, IsCounted, handle_incoming-stored, handle_incoming-IsCounted,
}
use whatsmeow_api.Prelude.{◌==◌, some, if◌then◌else◌}
use whatsmeow_api.Sqlite.RoundTrip.{map_ok, marked}
use whatsmeow_api.Waclient.{IncomingMessage}
use whatsmeow_api.Service.Incoming.Revoked.{handle_incoming-revoked}
use whatsmeow_api.Waclient.Translate.{MessageEvent, MessageProto, translate_incoming}
use whatsmeow_api.Service.Incoming.Received.{
  IsReceivable, Content, an_image, message_of_event, translate_incoming-stored,
}
use whatsmeow_api.Tests.Samples.{noon}
use whatsmeow_api.Tests.Samples.{world, engine, ann, bob, from_bob}

from_bob-IsPlain : IsPlain from_bob
from_bob-IsPlain = record { no_reaction = refl; no_revoke = refl; no_edit = refl }

handle_incoming-stored_example :
    Messages.get "in-1" (handle_incoming from_bob world).store
    ≡ ok (stored_message (received_message from_bob))
handle_incoming-stored_example = handle_incoming-stored engine from_bob world from_bob-IsPlain

handle_incoming-IsCounted_example :
    (c : Chat) × (Chats.get bob (handle_incoming from_bob world).store ≡ ok c)
    × IsCounted from_bob (Chats.get bob world.store) c
handle_incoming-IsCounted_example = handle_incoming-IsCounted engine from_bob world from_bob-IsPlain

-- Someone takes our message "m-1" back.
abbrev revoke : IncomingMessage
revoke = record from_bob { revoke_of_id = "m-1" }

handle_incoming-revoked_example : Messages.get "m-1" (handle_incoming revoke world).store ≡ (
    if revoke.revoke_of_id == "m-1"
    then map_ok (marked noon) (Messages.get "m-1" world.store)
    else Messages.get "m-1" world.store)
handle_incoming-revoked_example = handle_incoming-revoked engine revoke world refl refl "m-1"

-- Ann sends a photo.
abbrev photo : MessageProto
photo = record {
  conversation = none;
  extended_text = none;
  image = some (record { handle = "h"; mimetype = "image/jpeg" });
  video = none;
  audio = none;
  document = none;
  sticker = none;
  reaction = none;
  protocol = none;
}

abbrev photo_event : MessageEvent
photo_event = record {
  id = "in-2";
  chat = ann;
  sender = ann;
  is_from_me = false;
  timestamp = noon;
  push_name = "";
  message = some photo;
}

photo-IsReceivable : IsReceivable photo_event photo
photo-IsReceivable = record {
  theirs = refl;
  message = refl;
  no_reaction = refl;
  no_protocol = refl;
}

abbrev photo_content : Content photo
photo_content =
    an_image (record { handle = "h"; mimetype = "image/jpeg" })
      (record { no_conversation = refl; no_extended = refl }) refl

translate_incoming-stored_example :
    (msg : IncomingMessage) × (translate_incoming photo_event ≡ some msg)
    × (msg.media_downloader ≡ some (record { handle = "h"; mimetype = "image/jpeg" }))
    × (Messages.get "in-2" (handle_incoming msg world).store
        ≡ ok (stored_message (message_of_event photo_event "image" "")))
translate_incoming-stored_example =
    translate_incoming-stored engine world photo_event photo photo-IsReceivable photo_content
