-- ===== src/Http/Encode.antt =====
-- internal/transport/http: the JSON bodies. An instant is written as RFC 3339 in whole seconds, but
-- for the answer to a text message.
use whatsmeow_api.Prelude.{String, Option, none, some, List, [], ◌∷◌, ◌==◌, if◌then◌else◌, not}
use whatsmeow_api.Time.{Time, is_zero, whole_seconds}
use whatsmeow_api.Json.{
  Json, Items, null, bool, num, text, time, array, object, end_items, item, end, field, when,
}
use whatsmeow_api.Store.{Chat, Message, Contact, Reaction, Receipt}
use whatsmeow_api.Waclient.{Status, Group, GroupMember, ParticipantChange}

abbrev pub rfc3339 : Time → Json
rfc3339 t = time (whole_seconds t)

abbrev pub str_ptr : String → Option String
str_ptr s = if s == "" then none else some s

abbrev pub time_ptr : Time → Option Time
time_ptr t = if is_zero t then none else some t

abbrev pub nil_or_string : Option String → Json
nil_or_string none = null
nil_or_string (some s) = text s

abbrev pub nil_or_time : Option Time → Json
nil_or_time none = null
nil_or_time (some t) = rfc3339 t

abbrev pub encode_all {ℓ} : {A : Type ℓ} → (A → Json) → List A → Items
encode_all f [] = end_items
encode_all f (x ∷ xs) = item (f x) (encode_all f xs)

-- `map[string]any{name: …}`
abbrev pub listing {ℓ} : {A : Type ℓ} → String → (A → Json) → List A → Json
listing name f xs = object (field name (array (encode_all f xs)) end)

unfoldable pub encode_chat : Chat → Json
encode_chat c = object (
    field "jid" (text c.jid) (
      field "name" (nil_or_string (str_ptr c.name)) (
        field "kind" (text c.kind) (
          field "last_msg_at" (nil_or_time (time_ptr c.last_msg_at))
            (field "unread_count" (num c.unread_count) (field "archived" (bool c.archived) end))))))

unfoldable pub encode_message : Message → Json
encode_message m = object (
    field "id" (text m.id) (
      field "chat_jid" (text m.chat_jid) (
        field "sender_jid" (text m.sender_jid) (
          field "ts" (rfc3339 m.timestamp) (
            field "kind" (text m.kind) (
              field "body" (text m.body) (
                field "reply_to" (nil_or_string (str_ptr m.reply_to)) (
                  field "edited_at" (nil_or_time m.edited_at)
                    (field "deleted_at" (nil_or_time m.deleted_at) end)))))))))

unfoldable pub encode_contact : Contact → Json
encode_contact c = object (
    field "jid" (text c.jid) (
      field "push_name" (nil_or_string (str_ptr c.push_name)) (
        field "full_name" (nil_or_string (str_ptr c.full_name))
          (field "business_name" (nil_or_string (str_ptr c.business_name)) end))))

unfoldable pub encode_reaction : Reaction → Json
encode_reaction r = object (
    field "message_id" (text r.message_id) (
      field "sender_jid" (text r.sender_jid)
        (field "emoji" (text r.emoji) (field "ts" (rfc3339 r.timestamp) end))))

unfoldable pub encode_receipt : Receipt → Json
encode_receipt r = object (
    field "message_id" (text r.message_id) (
      field "reader_jid" (text r.reader_jid)
        (field "type" (text r.type) (field "ts" (rfc3339 r.timestamp) end))))

unfoldable pub encode_member : GroupMember → Json
encode_member m = object (
    field "jid" (text m.jid)
      (field "is_admin" (bool m.is_admin) (field "is_super_admin" (bool m.is_super_admin) end)))

unfoldable pub encode_group : Group → Json
unfolding encode_member
encode_group g = object (
    field "jid" (text g.jid) (
      field "name" (text g.name) (
        field "owner_jid" (text g.owner_jid) (
          field "created_at" (rfc3339 g.created_at)
            (field "members" (array (encode_all encode_member g.participants)) end)))))

unfoldable pub encode_change : ParticipantChange → Json
encode_change c = object (
    field "jid" (text c.jid)
      (field "ok" (bool c.is_ok) (when (not (c.error == "")) "error" (text c.error) end)))

unfoldable pub encode_status : Status → Json
encode_status s = object (
    field "wa_connected" (bool s.connected) (
      field "jid" (nil_or_string s.jid)
        (field "push_name" (nil_or_string s.push_name) (field "since" (nil_or_time s.since) end))))
