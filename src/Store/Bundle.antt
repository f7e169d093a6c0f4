-- ===== src/Store/Bundle.antt =====
-- internal/store/store.go: `Bundle`, the interface through which the service and the event stream
-- use a store. A statement is one transaction: a write that fails leaves the state as it was, and a
-- read leaves it alone.
use whatsmeow_api.Prelude.{ℕ, String, Bool, List, ℤ}
use whatsmeow_api.Time.{Time}
use whatsmeow_api.Errors.{Result}
use whatsmeow_api.Store.{Chat, Message, Contact, MediaRef, Reaction, EventLogEntry, Receipt}

pub record Bundle : Type 1 where
  pub State : Type 0
  -- ChatStore
  pub chats_put : Chat → State → Result State
  pub chats_get : String → State → Result Chat
  pub chats_list : Time → ℤ → Bool → State → Result (List Chat)
  pub chats_set_archived : String → Bool → State → Result State
  pub chats_count : State → Result ℕ
  pub chats_total_unread : State → Result ℕ
  -- MessageStore
  pub messages_put : Message → State → Result State
  pub messages_get : String → State → Result Message
  pub messages_list_by_chat : String → ℤ → Time → State → Result (List Message)
  pub messages_search : String → ℤ → State → Result (List Message)
  pub messages_soft_delete : String → Time → State → Result State
  pub messages_count : State → Result ℕ
  -- ContactStore
  pub contacts_put : Contact → State → Result State
  pub contacts_get : String → State → Result Contact
  pub contacts_list : State → Result (List Contact)
  pub contacts_search : String → ℤ → State → Result (List Contact)
  pub contacts_count : State → Result ℕ
  -- MediaStore
  pub media_put : MediaRef → State → Result State
  pub media_get_by_message_id : String → State → Result MediaRef
  -- EventsLog
  pub events_append : EventLogEntry → State → Result (ℕ × State)
  pub events_since_seq : ℕ → ℤ → State → Result (List EventLogEntry)
  -- KV
  pub kv_get : String → State → Result String
  pub kv_set : String → String → State → Result State
  pub kv_delete : String → State → Result State
  -- ReactionStore
  pub reactions_put : Reaction → State → Result State
  pub reactions_delete : String → String → State → Result State
  pub reactions_list_by_message_id : String → State → Result (List Reaction)
  -- ReceiptStore
  pub receipts_put : Receipt → State → Result State
  pub receipts_list_by_message_id : String → State → Result (List Receipt)
