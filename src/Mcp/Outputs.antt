-- ===== src/Mcp/Outputs.antt =====
-- internal/transport/mcp/tools_*.go: the outputs of the tools as JSON. A field marked omitempty is
-- left out where it is empty, a pointer where it is nil.
use whatsmeow_api.Prelude.{String, Option, none, some, not, ◌==◌}
use whatsmeow_api.Time.{Time}
use whatsmeow_api.Json.{Json, Fields, bool, num, text, time, array, object, end, field, when}
use whatsmeow_api.Store.{Chat, Message, Contact, Reaction, Receipt, MediaRef}
use whatsmeow_api.Waclient.{Status, LoginEvent, Group, GroupMember, ParticipantChange}
use whatsmeow_api.Service.Query.{Stats}
use whatsmeow_api.Http.Encode.{rfc3339, str_ptr, time_ptr, encode_all}

abbrev pub omit_empty : String → String → Fields → Fields
omit_empty key s rest = when (not (s == "")) key (text s) rest

abbrev pub opt_text : String → Option String → Fields → Fields
opt_text key none rest = rest
opt_text key (some s) rest = field key (text s) rest

abbrev pub opt_time : String → Option Time → Fields → Fields
opt_time key none rest = rest
opt_time key (some t) rest = field key (rfc3339 t) rest

unfoldable pub chat_to_output : Chat → Json
chat_to_output c = object (
    field "jid" (text c.jid) (
      opt_text "name" (str_ptr c.name) (
        field "kind" (text c.kind) (
          opt_time "last_msg_at" (time_ptr c.last_msg_at)
            (field "unread_count" (num c.unread_count) (field "archived" (bool c.archived) end))))))

unfoldable pub message_to_output : Message → Json
message_to_output m = object (
    field "id" (text m.id) (
      field "chat_jid" (text m.chat_jid) (
        field "sender_jid" (text m.sender_jid) (
          field "ts" (rfc3339 m.timestamp) (
            field "kind" (text m.kind) (
              field "body" (text m.body) (
                opt_text "reply_to" (str_ptr m.reply_to)
                  (opt_time "edited_at" m.edited_at (opt_time "deleted_at" m.deleted_at end)))))))))

unfoldable pub contact_to_output : Contact → Json
contact_to_output c = object (
    field "jid" (text c.jid) (
      opt_text "push_name" (str_ptr c.push_name) (
        opt_text "full_name" (str_ptr c.full_name)
          (opt_text "business_name" (str_ptr c.business_name) end))))

unfoldable pub reaction_to_output : Reaction → Json
reaction_to_output r = object (
    field "message_id" (text r.message_id) (
      field "sender_jid" (text r.sender_jid)
        (field "emoji" (text r.emoji) (field "ts" (rfc3339 r.timestamp) end))))

unfoldable pub receipt_to_output : Receipt → Json
receipt_to_output r = object (
    field "message_id" (text r.message_id) (
      field "reader_jid" (text r.reader_jid)
        (field "type" (text r.type) (field "ts" (rfc3339 r.timestamp) end))))

unfoldable pub media_ref_to_output : MediaRef → Json
media_ref_to_output ref = object (
    field "message_id" (text ref.message_id) (
      field "mime" (text ref.mime) (
        field "size" (num ref.size)
          (field "sha256" (text ref.sha256) (field "path" (text ref.path) end)))))

unfoldable pub group_member_to_output : GroupMember → Json
group_member_to_output m = object (
    field "jid" (text m.jid) (
      when m.is_admin "is_admin" (bool m.is_admin)
        (when m.is_super_admin "is_super_admin" (bool m.is_super_admin) end)))

-- A time is never empty for omitempty, and `encoding/json` writes its fraction.
unfoldable pub group_to_output : Group → Json
unfolding group_member_to_output
group_to_output g = object (
    field "jid" (text g.jid) (
      field "name" (text g.name) (
        omit_empty "owner_jid" g.owner_jid (
          field "created_at" (time g.created_at)
            (field "members" (array (encode_all group_member_to_output g.participants)) end)))))

unfoldable pub participant_change_to_output : ParticipantChange → Json
participant_change_to_output c =
    object (field "jid" (text c.jid) (field "ok" (bool c.is_ok) (omit_empty "error" c.error end)))

unfoldable pub status_to_output : Status → Json
status_to_output s = object (
    field "connected" (bool s.connected)
      (text_of "jid" s.jid (text_of "push_name" s.push_name end)))
  where
    text_of : String → Option String → Fields → Fields
    text_of key none rest = rest
    text_of key (some s) rest = omit_empty key s rest

unfoldable pub stats_to_output : Stats → Json
stats_to_output s = object (
    field "chats" (num s.chats) (
      field "messages" (num s.messages)
        (field "contacts" (num s.contacts) (field "unread_total" (num s.unread_total) end))))

unfoldable pub login_to_output : LoginEvent → Json
login_to_output ev = object (
    field "code" (text ev.code)
      (field "terminal" (bool ev.terminal) (omit_empty "outcome" ev.outcome end)))
