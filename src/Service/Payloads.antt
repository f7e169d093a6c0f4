-- ===== src/Service/Payloads.antt =====
-- internal/service/events.go: the payloads of the event stream.
use whatsmeow_api.Prelude.{ℕ, String, not, ◌&&◌, Option, none, some, ◌==◌}
use whatsmeow_api.Time.{Time}
use whatsmeow_api.Json.{Json, bool, num, text, time, array, object, Fields, end, field, when, texts}
use whatsmeow_api.Store.{MediaRef}
use whatsmeow_api.Waclient.{IncomingMessage, IncomingReceipt, Status}

abbrev pub payload_version : ℕ
payload_version = 1

abbrev media_object : IncomingMessage → MediaRef → Json
media_object m ref = object (
    field "ref" (text ref.message_id) (
      field "mime_type" (text ref.mime) (
        field "size" (num ref.size) (
          field "sha256" (text ref.sha256)
            (when (not (m.body == "")) "caption" (text m.body) end)))))

unfoldable pub build_message_received_payload : IncomingMessage → MediaRef → Json
build_message_received_payload m ref = object (
    field "v" (num payload_version) (
      field "message_id" (text m.id) (
        field "chat_jid" (text m.chat_jid) (
          field "sender_jid" (text m.sender_jid) (
            field "kind" (text m.kind) (
              field "body" (text m.body) (
                field "timestamp" (time m.timestamp) (
                  when (not (m.push_name == "")) "push_name" (text m.push_name)
                    (when (not (ref.message_id == "")) "media" (media_object m ref) end)))))))))

unfoldable pub build_message_edited_payload : String → String → String → Time → Json
build_message_edited_payload message_id chat_jid body edited_at = object (
    field "v" (num payload_version) (
      field "message_id" (text message_id) (
        field "chat_jid" (text chat_jid)
          (field "body" (text body) (field "edited_at" (time edited_at) end)))))

unfoldable pub build_message_deleted_payload : String → String → Time → Json
build_message_deleted_payload message_id chat_jid deleted_at = object (
    field "v" (num payload_version) (
      field "message_id" (text message_id)
        (field "chat_jid" (text chat_jid) (field "deleted_at" (time deleted_at) end))))

unfoldable pub build_reaction_received_payload : String → String → String → Time → Json
build_reaction_received_payload target sender_jid emoji ts = object (
    field "v" (num payload_version) (
      field "target_message_id" (text target) (
        field "sender_jid" (text sender_jid)
          (field "emoji" (text emoji) (field "timestamp" (time ts) end)))))

unfoldable pub build_receipt_received_payload : IncomingReceipt → Json
build_receipt_received_payload r = object (
    field "v" (num payload_version) (
      field "message_ids" (array (texts r.message_ids)) (
        field "chat_jid" (text r.chat_jid) (
          field "reader_jid" (text r.reader_jid)
            (field "type" (text r.type) (field "timestamp" (time r.timestamp) end))))))

unfoldable pub build_typing_received_payload : String → String → String → Time → Json
build_typing_received_payload chat_jid sender_jid state ts = object (
    field "v" (num payload_version) (
      field "chat_jid" (text chat_jid) (
        field "sender_jid" (text sender_jid)
          (field "state" (text state) (field "timestamp" (time ts) end)))))

abbrev with_text : String → Option String → Fields → Fields
with_text k none fs = fs
with_text k (some s) fs = field k (text s) fs

abbrev with_time : String → Option Time → Fields → Fields
with_time k none fs = fs
with_time k (some t) fs = field k (time t) fs

unfoldable pub build_connection_state_payload : Status → String → Json
build_connection_state_payload s reason = object (
    field "v" (num payload_version) (
      field "connected" (bool s.connected) (
        with_text "jid" s.jid (
          with_time "since" s.since
            (when (not s.connected && not (reason == "")) "reason" (text reason) end)))))
