-- ===== src/Sqlite/Store.antt =====
-- internal/store/sqlite/store.go: `(*Store).Bundle`, the SQLite store as the interface.
use whatsmeow_api.Prelude.{String, Bool, Option}
use whatsmeow_api.Store.Bundle.{Bundle}
use whatsmeow_api.Sqlite.Tables.{Db}
use whatsmeow_api.Sqlite.Chats
use whatsmeow_api.Sqlite.Messages
use whatsmeow_api.Sqlite.Contacts
use whatsmeow_api.Sqlite.Media
use whatsmeow_api.Sqlite.Events
use whatsmeow_api.Sqlite.Kv
use whatsmeow_api.Sqlite.Reactions
use whatsmeow_api.Sqlite.Receipts

-- What the database engine and Go's case tables compute.
pub record Engine : Type 0 where
  pub fts : String → Option (String → Bool)
  pub to_lower : String → String
  pub lower : String → String
  pub like : String → String → Bool

abbrev pub bundle : Engine → Bundle
bundle g = record {
  State = Db;
  chats_put = Chats.put;
  chats_get = Chats.get;
  chats_list = Chats.list;
  chats_set_archived = Chats.set_archived;
  chats_count = Chats.chats_count;
  chats_total_unread = Chats.total_unread;
  messages_put = Messages.put;
  messages_get = Messages.get;
  messages_list_by_chat = Messages.list_by_chat;
  messages_search = Messages.search g.fts;
  messages_soft_delete = Messages.soft_delete;
  messages_count = Messages.messages_count;
  contacts_put = Contacts.put;
  contacts_get = Contacts.get;
  contacts_list = Contacts.list;
  contacts_search = Contacts.search g.to_lower g.lower g.like;
  contacts_count = Contacts.contacts_count;
  media_put = Media.put;
  media_get_by_message_id = Media.get_by_message_id;
  events_append = Events.append;
  events_since_seq = Events.since_seq;
  kv_get = Kv.get;
  kv_set = Kv.set;
  kv_delete = Kv.delete;
  reactions_put = Reactions.put;
  reactions_delete = Reactions.delete;
  reactions_list_by_message_id = Reactions.list_by_message_id;
  receipts_put = Receipts.put;
  receipts_list_by_message_id = Receipts.list_by_message_id;
}
