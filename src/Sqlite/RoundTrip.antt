-- ===== src/Sqlite/RoundTrip.antt =====
-- What a SQLite row gives back of the Go value that was put: everything but the fractions of a
-- second of its instants.
use whatsmeow_api.Prelude.{
  ◌≡◌, refl, String, true, Option, none, some, arith, eq_iff, ◌==◌, if◌then◌else◌,
}
use whatsmeow_api.Time.{Time, unix, whole_seconds}
use whatsmeow_api.Errors.{is_ok, Result, ok, err}
use whatsmeow_api.Store.{Chat, Message, Contact}
use whatsmeow_api.Table.Laws.{find-put, find-modify}
use whatsmeow_api.Sqlite.Tables.{
  Db, MessageRow, message_key, chat_key, contact_key, nullable_string, null_string, has_chat,
}
use whatsmeow_api.Sqlite.Chats
use whatsmeow_api.Sqlite.Messages
use whatsmeow_api.Sqlite.Contacts

null_string-nullable_string : (s : String) → null_string (nullable_string s) ≡ s
null_string-nullable_string s = ground (arith, eq_iff s "")

abbrev whole_ptr : Option Time → Option Time
whole_ptr none = none
whole_ptr (some t) = some (whole_seconds t)

-- The message, chat and contact that a reader gets.
abbrev pub stored_message : Message → Message
stored_message m = record m {
  timestamp = whole_seconds m.timestamp;
  edited_at = whole_ptr m.edited_at;
  deleted_at = whole_ptr m.deleted_at;
}

abbrev pub stored_chat : Chat → Chat
stored_chat c = record c { last_msg_at = whole_seconds c.last_msg_at }

scan_message_row : (m : Message) → Messages.scan_message (Messages.message_row m) ≡ stored_message m
unfolding Messages.scan_message
scan_message_row m = ground (
  arith,
  null_string-nullable_string m.body,
  null_string-nullable_string m.reply_to,
  null_string-nullable_string m.raw_meta,
)

scan_chat_row : (c : Chat) → Chats.scan_chat (Chats.chat_row c) ≡ stored_chat c
unfolding Chats.scan_chat
scan_chat_row c = ground arith

scan_contact_row : (c : Contact) → Contacts.scan_contact (Contacts.contact_row c) ≡ c
unfolding Contacts.scan_contact
scan_contact_row c = ground (
  arith,
  null_string-nullable_string c.push_name,
  null_string-nullable_string c.full_name,
  null_string-nullable_string c.business_name,
)

-- After a message is put, a reader of its id gets it back up to fractions of a second, and a
-- reader of any other id gets what it got before.
pub messages_get-put :
    (m : Message) (id : String) (db : Db) {db' : Db}
    → Messages.put m db ≡ ok db'
    → Messages.get id db' ≡ (if m.id == id then ok (stored_message m) else Messages.get id db)
unfolding Messages.put Messages.get
messages_get-put m id db p = ground (
  arith,
  find-put message_key ◌==◌ eq_iff id (Messages.message_row m) db.messages,
  scan_message_row m,
)

-- A message of a known chat is accepted.
pub messages_put-is_ok :
    (m : Message) (db : Db) → has_chat m.chat_jid db ≡ true → is_ok (Messages.put m db) ≡ true
unfolding Messages.put
messages_put-is_ok m db known = rw known refl

-- After a chat is put, a reader of its JID gets it back up to fractions of a second, and a reader
-- of any other JID gets what it got before.
pub chats_get-put :
    (c : Chat) (jid : String) (db : Db) {db' : Db}
    → Chats.put c db ≡ ok db'
    → Chats.get jid db' ≡ (if c.jid == jid then ok (stored_chat c) else Chats.get jid db)
unfolding Chats.put Chats.get
chats_get-put c jid db p =
    ground (arith, find-put chat_key ◌==◌ eq_iff jid (Chats.chat_row c) db.chats, scan_chat_row c)

-- After a contact is put, a reader of its JID gets it back whole, and a reader of any other JID
-- gets what it got before.
pub contacts_get-put :
    (c : Contact) (jid : String) (db : Db) {db' : Db}
    → Contacts.put c db ≡ ok db'
    → Contacts.get jid db' ≡ (if c.jid == jid then ok c else Contacts.get jid db)
unfolding Contacts.put Contacts.get
contacts_get-put c jid db p = ground (
  arith,
  find-put contact_key ◌==◌ eq_iff jid (Contacts.contact_row c) db.contacts,
  scan_contact_row c,
)

-- What a reader gets of a message after its row was marked deleted.
abbrev pub marked : Time → Message → Message
marked when m = record m { deleted_at = some (whole_seconds when) }

abbrev pub map_ok : (Message → Message) → Result Message → Result Message
map_ok f (ok m) = ok (f m)
map_ok f (err e) = err e

abbrev mark : Time → MessageRow → MessageRow
mark when r = record r { deleted_at = some (unix when) }

-- A soft delete marks the message of its id, if there is one, and no other message.
pub messages_get-soft_delete :
    (when : Time) (id j : String) (db : Db) {db' : Db}
    → Messages.soft_delete id when db ≡ ok db'
    → Messages.get j db'
      ≡ (if id == j then map_ok (marked when) (Messages.get j db) else Messages.get j db)
unfolding Messages.soft_delete Messages.get
messages_get-soft_delete when id j db p =
    ground (arith, find-modify message_key ◌==◌ eq_iff (mark when) (λ r. refl) j id db.messages)
