-- ===== src/Service/Incoming/Received.antt =====
-- From whatsmeow's event to the row: `translateIncoming` of the adapter, then `handleIncoming`.
use whatsmeow_api.Prelude.{◌≡◌, refl, ◌∙◌, String, false, Option, none, some}
use whatsmeow_api.Errors.{ok}
use whatsmeow_api.Store.{Message}
use whatsmeow_api.Sqlite.Store.{Engine, bundle}
use whatsmeow_api.Sqlite.Messages
use whatsmeow_api.Sqlite.RoundTrip.{stored_message}
use whatsmeow_api.Waclient.{Downloader, IncomingMessage}
use whatsmeow_api.Waclient.Client.{WaClient}
use whatsmeow_api.Waclient.Translate.{
  MessageEvent, MessageProto, KindAndBody, envelope, media, text_of, message_kind_and_body,
  translate_incoming,
}
use whatsmeow_api.Service.World.{MediaDisk, World}
use whatsmeow_api.Service.Incoming.{handle_incoming}
use whatsmeow_api.Service.Incoming.Plain.{handle_incoming-stored}

-- The text of an extended text message, if it has one.
abbrev pub text_in : Option (Option String) → Option String
text_in none = none
text_in (some t) = t

-- A message has no text.
pub record IsTextless (m : MessageProto) : Type 0 where
  pub no_conversation : m.conversation ≡ none
  pub no_extended : text_in m.extended_text ≡ none

-- What a message says: a text, short or extended, or an attachment. Where WhatsApp's message has
-- several of them, a text comes before an attachment, and the attachments stand in this order.
pub data Content (m : MessageProto) : Type 0 where
  short_text : (s : String) → m.conversation ≡ some s → Content m
  long_text : (s : String) → m.conversation ≡ none → m.extended_text ≡ some (some s) → Content m
  an_image : (d : Downloader) → IsTextless m → m.image ≡ some d → Content m
  a_video : (d : Downloader) → IsTextless m → m.image ≡ none → m.video ≡ some d → Content m
  an_audio :
      (d : Downloader)
      → IsTextless m
      → m.image ≡ none
      → m.video ≡ none
      → m.audio ≡ some d
      → Content m
  a_document :
      (d : Downloader)
      → IsTextless m
      → m.image ≡ none
      → m.video ≡ none
      → m.audio ≡ none
      → m.document ≡ some d
      → Content m
  a_sticker :
      (d : Downloader)
      → IsTextless m
      → m.image ≡ none
      → m.video ≡ none
      → m.audio ≡ none
      → m.document ≡ none
      → m.sticker ≡ some d
      → Content m

module _ {m : MessageProto} where
  abbrev pub kind_of : Content m → String
  kind_of (short_text _ _) = "text"
  kind_of (long_text _ _ _) = "text"
  kind_of (an_image _ _ _) = "image"
  kind_of (a_video _ _ _ _) = "video"
  kind_of (an_audio _ _ _ _ _) = "audio"
  kind_of (a_document _ _ _ _ _ _) = "document"
  kind_of (a_sticker _ _ _ _ _ _ _) = "sticker"

  abbrev pub body_of : Content m → String
  body_of (short_text s _) = s
  body_of (long_text s _ _) = s
  body_of _ = ""

  abbrev pub attachment_of : Content m → Option Downloader
  attachment_of (short_text _ _) = none
  attachment_of (long_text _ _ _) = none
  attachment_of (an_image d _ _) = some d
  attachment_of (a_video d _ _ _) = some d
  attachment_of (an_audio d _ _ _ _) = some d
  attachment_of (a_document d _ _ _ _ _) = some d
  attachment_of (a_sticker d _ _ _ _ _ _) = some d

-- The message that an event carries.
abbrev pub message_of_event : MessageEvent → String → String → Message
message_of_event evt kind body = record {
  id = evt.id;
  chat_jid = evt.chat;
  sender_jid = evt.sender;
  timestamp = evt.timestamp;
  kind = kind;
  body = body;
  reply_to = "";
  edited_at = none;
  deleted_at = none;
  raw_meta = "";
}

-- A message of someone else that is neither a reaction nor a protocol message.
pub record IsReceivable (evt : MessageEvent) (m : MessageProto) : Type 0 where
  pub theirs : evt.is_from_me ≡ false
  pub message : evt.message ≡ some m
  pub no_reaction : m.reaction ≡ none
  pub no_protocol : m.protocol ≡ none

skip_text :
    (t : Option (Option String))
    → text_in t ≡ none
    → (rest : Option KindAndBody) → text_of t rest ≡ rest
skip_text none _ rest = refl
skip_text (some none) _ rest = refl
skip_text (some (some s)) h rest = absurd (cc)

attachment_found :
    (m : MessageProto)
    → IsTextless m
    → message_kind_and_body m
      ≡ media "image" m.image (
          media "video" m.video
            (media "audio" m.audio (media "document" m.document (media "sticker" m.sticker none))))
unfolding message_kind_and_body
attachment_found m silent =
    rw silent.no_conversation (skip_text m.extended_text silent.no_extended _)

content_found :
    (m : MessageProto) (c : Content m)
    → message_kind_and_body m
      ≡ some (record { kind = kind_of c; body = body_of c; downloader = attachment_of c })
unfolding message_kind_and_body
content_found m (short_text s said) = rw said refl
content_found m (long_text s no_short said) = rw (no_short, said) refl
content_found m (an_image d silent sent) = attachment_found m silent ∙ rw sent refl
content_found m (a_video d silent i sent) = attachment_found m silent ∙ rw (i, sent) refl
content_found m (an_audio d silent i v sent) = attachment_found m silent ∙ rw (i, v, sent) refl
content_found m (a_document d silent i v a sent) =
    attachment_found m silent ∙ rw (i, v, a, sent) refl
content_found m (a_sticker d silent i v a f sent) =
    attachment_found m silent ∙ rw (i, v, a, f, sent) refl

module _ (g : Engine) {W : WaClient} {D : MediaDisk} (w : World (bundle g) W D) (evt : MessageEvent)
    (m : MessageProto) where
  -- Every text, image, video, audio, document or sticker that someone else sends is passed on by the
  -- adapter, an attachment with what it takes to download it, and stored by the service on the SQLite
  -- store, with its sender, chat, instant to the second, kind and, if it is a text, its text.
  pub translate_incoming-stored :
      IsReceivable evt m
      → (c : Content m)
      → (msg : IncomingMessage) × (translate_incoming evt ≡ some msg)
        × (msg.media_downloader ≡ attachment_of c)
        × (Messages.get evt.id (handle_incoming msg w).store
            ≡ ok (stored_message (message_of_event evt (kind_of c) (body_of c))))
  unfolding translate_incoming
  translate_incoming-stored r c = (
    record (envelope evt) {
      kind = kind_of c;
      body = body_of c;
      push_name = evt.push_name;
      media_downloader = attachment_of c;
    },
    rw (r.theirs, r.message, r.no_reaction, r.no_protocol, content_found m c) refl,
    refl,
    handle_incoming-stored g _ w (record { no_reaction = refl; no_revoke = refl; no_edit = refl }),
  )
