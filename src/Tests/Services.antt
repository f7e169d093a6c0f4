-- ===== src/Tests/Services.antt =====
-- The theorems on the service, at concrete requests.
use whatsmeow_api.Prelude.{◌≡◌, ◌≢◌, ◌↔◌, refl, ap, String, arith, true, false, none, [], ◌∷◌}
use mathlib.Core.Bool.{true≢false}
use whatsmeow_api.Text
use whatsmeow_api.Table
use whatsmeow_api.Text.{codes}
use whatsmeow_api.Errors.{ok}
use whatsmeow_api.Sqlite.Chats
use whatsmeow_api.Sqlite.Messages
use whatsmeow_api.Sqlite.RoundTrip.{stored_message}
use whatsmeow_api.Waclient.Jid.{is_valid_phone_number, IsE164, is_valid_phone_number_iff}
use whatsmeow_api.Service.World.{World}
use whatsmeow_api.Service.Send.{SendMediaRequest, sent_message, send_text, media_problem}
use whatsmeow_api.Service.Send.Guards.{IsSendable, IsSendableMedia, media_problem_iff}
use whatsmeow_api.Service.Send.Persistence.{send_text-stored, send_text-lost}
use whatsmeow_api.Service.Edit.{edit_message, delete_message}
use whatsmeow_api.Service.Edit.Ownership.{IsOurs, edit_message-IsOurs, delete_message-IsOurs}
use whatsmeow_api.Prelude.{ℕ, ◌-◌, ◌<◌, pos, some}
use whatsmeow_api.Json
use whatsmeow_api.Table
use whatsmeow_api.Time.{whole_seconds}
use whatsmeow_api.Sqlite.Events
use whatsmeow_api.Sqlite.RoundTrip.{stored_chat}
use whatsmeow_api.Broadcaster.{publish}
use whatsmeow_api.Service.Emitter.{emit}
use whatsmeow_api.Service.Emitter.Logged.{emit-logged}
use whatsmeow_api.Service.React.{mark_message_read}
use whatsmeow_api.Service.React.Unread.{mark_message_read-counted}
use whatsmeow_api.Tests.Stores.{db-IsConsistent}
use whatsmeow_api.Tests.Samples.{noon, our_jid, message_of, chat_with, broadcaster}
use whatsmeow_api.Tests.Samples.{world, engine, ann, bob, sent}

sendable : (jid : String) → Text.is_blank jid ≡ false → IsSendable jid "hello"
sendable jid named = record { chat = named; some_text = refl; short = omega arith }

ann_named : Text.is_blank ann ≡ false
unfolding Text.is_blank
ann_named = refl

bob_named : Text.is_blank bob ≡ false
unfolding Text.is_blank
bob_named = refl

send_text-stored_example :
    Messages.get "out-1" (send_text ann "hello" "" world).1.store
    ≡ ok (stored_message (sent_message ann "text" "hello" "" sent))
unfolding Table.find
send_text-stored_example =
    send_text-stored engine world ann "hello" "" (sendable ann ann_named) sent refl refl

send_text-lost_example :
    ((send_text bob "hello" "" world).0 ≡ ok (sent_message bob "text" "hello" "" sent))
    × (Messages.get "out-1" (send_text bob "hello" "" world).1.store
        ≡ Messages.get "out-1" world.store)
unfolding Table.find
send_text-lost_example =
    send_text-lost engine world bob "hello" "" (sendable bob bob_named) sent refl refl

no_text : ¬ IsSendable ann ""
no_text s = absurd (cc (s.some_text))

-- A picture, and one without a MIME type.
abbrev picture : String → SendMediaRequest
picture mime = record {
  chat_jid = ann;
  kind = "image";
  caption = "";
  filename = "";
  mime = mime;
  body = 1 ∷ 2 ∷ [];
}

media_problem_iff_example :
    (media_problem (picture "image/png") ≡ none) ↔ IsSendableMedia (picture "image/png")
media_problem_iff_example = media_problem_iff (picture "image/png")

no_mime : ¬ IsSendableMedia (picture "")
unfolding Text.is_blank
no_mime s = absurd (true≢false s.mime)

edited : (edit_message "m-1" "bye" world).1 ≢ world
unfolding edit_message Messages.get Text.is_blank Table.find
edited e = absurd (omega (arith, ap World.net e))

edit_message-IsOurs_example : IsOurs world "m-1"
edit_message-IsOurs_example = edit_message-IsOurs world "m-1" "bye" edited

taken_back : (delete_message "m-1" world).1 ≢ world
unfolding delete_message Messages.get Text.is_blank Table.find
taken_back e = absurd (omega (arith, ap World.net e))

delete_message-IsOurs_example : IsOurs world "m-1"
delete_message-IsOurs_example = delete_message-IsOurs world "m-1" taken_back

is_valid_phone_number_iff_example :
    (is_valid_phone_number "+4912345678" ≡ true) ↔ IsE164 (codes "+4912345678")
is_valid_phone_number_iff_example = is_valid_phone_number_iff "+4912345678"

our_message : Messages.get "m-1" world.store ≡ ok (stored_message (message_of "m-1" ann our_jid))
unfolding Messages.get Table.find
our_message = refl

ann_chat : Chats.get ann world.store ≡ ok (stored_chat (chat_with ann))
unfolding Chats.get Table.find
ann_chat = refl

mine_named : Text.is_blank "m-1" ≡ false
unfolding Text.is_blank
mine_named = refl

mark_message_read-counted_example :
    ((mark_message_read "m-1" world).0 ≡ ok tt)
    × (Chats.get ann (mark_message_read "m-1" world).1.store
        ≡ ok (record (stored_chat (chat_with ann)) { unread_count = 0 - 1 }))
mark_message_read-counted_example =
    mark_message_read-counted engine world "m-1" (stored_message (message_of "m-1" ann our_jid))
      (stored_chat (chat_with ann)) mine_named our_message refl ann_chat

emit-logged_example :
    (seq : ℕ) × (3 < seq)
    × ((emit "typing" Json.null world).broadcaster
        ≡ some (publish (record { seq = seq; kind = "typing"; payload = Json.null }) broadcaster))
    × (Events.since_seq 3 (pos 1) (emit "typing" Json.null world).store
        ≡ ok (
            record { seq = seq; time = whole_seconds noon; type = "typing"; payload = Json.null }
            ∷ []))
emit-logged_example = emit-logged engine "typing" Json.null world broadcaster refl db-IsConsistent 0
