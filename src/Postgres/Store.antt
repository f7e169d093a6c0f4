-- ===== src/Postgres/Store.antt =====
-- internal/store/postgres/store.go: `(*Store).Bundle`, the PostgreSQL store as the interface.
use whatsmeow_api.Store.Bundle.{Bundle}
use whatsmeow_api.Postgres.Tables.{PgDb, PgEngine}
use whatsmeow_api.Postgres.Chats.{
  pg_chats_put, pg_chats_get, pg_chats_list, pg_set_archived, pg_chats_count, pg_total_unread,
}
use whatsmeow_api.Postgres.Messages.{
  pg_messages_put, pg_messages_get, pg_list_by_chat, pg_search, pg_soft_delete, pg_messages_count,
}
use whatsmeow_api.Postgres.Parts.{
  pg_contacts_put, pg_contacts_get, pg_contacts_list, pg_contacts_search, pg_contacts_count,
  pg_media_put, pg_media_get, pg_events_append, pg_since_seq, pg_kv_get, pg_kv_set, pg_kv_delete,
  pg_reactions_put, pg_reactions_delete, pg_reactions_list, pg_receipts_put, pg_receipts_list,
}

abbrev pub pg_bundle : PgEngine → Bundle
pg_bundle g = record {
  State = PgDb;
  chats_put = pg_chats_put g;
  chats_get = pg_chats_get;
  chats_list = pg_chats_list g;
  chats_set_archived = pg_set_archived;
  chats_count = pg_chats_count;
  chats_total_unread = pg_total_unread;
  messages_put = pg_messages_put g;
  messages_get = pg_messages_get;
  messages_list_by_chat = pg_list_by_chat g;
  messages_search = pg_search g;
  messages_soft_delete = pg_soft_delete g;
  messages_count = pg_messages_count;
  contacts_put = pg_contacts_put g;
  contacts_get = pg_contacts_get;
  contacts_list = pg_contacts_list g;
  contacts_search = pg_contacts_search g;
  contacts_count = pg_contacts_count;
  media_put = pg_media_put g;
  media_get_by_message_id = pg_media_get;
  events_append = pg_events_append g;
  events_since_seq = pg_since_seq g;
  kv_get = pg_kv_get;
  kv_set = pg_kv_set g;
  kv_delete = pg_kv_delete;
  reactions_put = pg_reactions_put g;
  reactions_delete = pg_reactions_delete;
  reactions_list_by_message_id = pg_reactions_list g;
  receipts_put = pg_receipts_put g;
  receipts_list_by_message_id = pg_receipts_list g;
}
