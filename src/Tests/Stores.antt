-- ===== src/Tests/Stores.antt =====
-- The theorems on the SQLite store and on its tables, at concrete rows.
use whatsmeow_api.Prelude.{◌≡◌, refl, arith, List, [], ◌∷◌, ◌==◌, if◌then◌else◌, pos, some}
use whatsmeow_api.Time.{zero_time, unix}
use whatsmeow_api.Store.{Message}
use whatsmeow_api.Table
use whatsmeow_api.Errors.{ok}
use whatsmeow_api.Sqlite.Tables.{Db, chat_key, message_key, contact_key}
use whatsmeow_api.Sqlite.Chats
use whatsmeow_api.Sqlite.Messages
use whatsmeow_api.Sqlite.Contacts
use whatsmeow_api.Sqlite.RoundTrip.{messages_get-put, stored_message}
use whatsmeow_api.Sqlite.Listing.{IsPage, list_by_chat-IsPage}
use whatsmeow_api.Sqlite.Consistency.{run, run-IsConsistent}
use whatsmeow_api.Sqlite.Consistency.Updates.{IsConsistent}
use whatsmeow_api.Tests.Samples.{
  ann, bob, chat_with, message_of, ann_contact, our_jid, history, db, noon,
}

pub db-IsConsistent : IsConsistent db
unfolding Table.find
db-IsConsistent = record {
  chat_keys = (refl, tt);
  message_keys = (refl, tt);
  contact_keys = tt;
  media_keys = tt;
  kv_keys = tt;
  reaction_keys = tt;
  receipt_keys = tt;
  message_refs = (refl, tt);
  media_refs = tt;
  reaction_refs = tt;
  receipt_refs = tt;
  seqs = (omega arith, (omega arith, omega arith));
}

run-IsConsistent_example : IsConsistent (run history db)
run-IsConsistent_example = run-IsConsistent history db db-IsConsistent

-- Ann's answer, a chat with Bob, Ann's name, and our message taken back.
abbrev reply : Message
reply = message_of "m-2" ann ann

abbrev after_reply : Db
after_reply = record db {
  messages = Table.put message_key ◌==◌ (Messages.message_row reply) db.messages;
}

reply_accepted : Messages.put reply db ≡ ok after_reply
unfolding Messages.put Table.find Table.put
reply_accepted = refl

messages_get-put_example :
    Messages.get "m-2" after_reply
    ≡ (if reply.id == "m-2" then ok (stored_message reply) else Messages.get "m-2" db)
messages_get-put_example = messages_get-put reply "m-2" db reply_accepted

abbrev after_chat : Db
after_chat = record db { chats = Table.put chat_key ◌==◌ (Chats.chat_row (chat_with bob)) db.chats }

chat_accepted : Chats.put (chat_with bob) db ≡ ok after_chat
unfolding Chats.put
chat_accepted = refl

abbrev after_contact : Db
after_contact = record db {
  contacts = Table.put contact_key ◌==◌ (Contacts.contact_row ann_contact) db.contacts;
}

contact_accepted : Contacts.put ann_contact db ≡ ok after_contact
unfolding Contacts.put
contact_accepted = refl

abbrev after_delete : Db
after_delete = record db {
  messages =
      Table.modify message_key ◌==◌ "m-1" (λ r. record r { deleted_at = some (unix noon) })
        db.messages;
}

soft_deleted : Messages.soft_delete "m-1" noon db ≡ ok after_delete
unfolding Messages.soft_delete
soft_deleted = refl

-- The first page of the chat with Ann.
abbrev page : List Message
page = stored_message (message_of "m-1" ann our_jid) ∷ []

page_listed : Messages.list_by_chat ann (pos 1) zero_time db ≡ ok page
unfolding Messages.list_by_chat
page_listed = refl

list_by_chat-IsPage_example :
    (messages : List Message) × (Messages.list_by_chat ann (pos 1) zero_time db ≡ ok messages)
    × IsPage ann 1 zero_time db messages
list_by_chat-IsPage_example = list_by_chat-IsPage ann 1 zero_time db
