-- ===== src/Service/Query.antt =====
-- internal/service/service.go: the use cases that only read.
pub mod Pages
use whatsmeow_api.Prelude.{ℕ, String, Bool, List, if◌then◌else◌, ℤ}
use whatsmeow_api.Text.{is_blank}
use whatsmeow_api.Time.{Time}
use whatsmeow_api.Errors.{Result, ok, err, ◌>>=◌, invalid_request}
use whatsmeow_api.Store.{Chat, Message, Contact, Reaction, Receipt}
use whatsmeow_api.Store.Bundle.{Bundle}
use whatsmeow_api.Service.World.{validate_limit}

pub record Stats : Type 0 where
  pub chats : ℕ
  pub messages : ℕ
  pub contacts : ℕ
  pub unread_total : ℕ

module _ (B : Bundle) where
  unfoldable pub list_chats : Time → ℤ → Bool → B.State → Result (List Chat)
  unfolding validate_limit
  list_chats before limit include_archived s = do
    _ ← validate_limit limit
    B.chats_list before limit include_archived s

  unfoldable pub get_chat : String → B.State → Result Chat
  get_chat jid s =
      if is_blank jid then err (invalid_request "jid is required") else B.chats_get jid s

  unfoldable pub list_messages : String → Time → ℤ → B.State → Result (List Message)
  unfolding validate_limit
  list_messages chat_jid before limit s =
      if is_blank chat_jid
      then err (invalid_request "chat_jid is required")
      else (validate_limit limit >>= λ _. B.messages_list_by_chat chat_jid limit before s)

  unfoldable pub search_messages : String → ℤ → B.State → Result (List Message)
  unfolding validate_limit
  search_messages query limit s =
      if is_blank query
      then err (invalid_request "q is required")
      else (validate_limit limit >>= λ _. B.messages_search query limit s)

  unfoldable pub list_contacts : B.State → Result (List Contact)
  list_contacts s = B.contacts_list s

  unfoldable pub search_contacts : String → ℤ → B.State → Result (List Contact)
  unfolding validate_limit
  search_contacts query limit s =
      if is_blank query
      then err (invalid_request "q is required")
      else (validate_limit limit >>= λ _. B.contacts_search query limit s)

  unfoldable pub stats : B.State → Result Stats
  stats s = do
    chats ← B.chats_count s
    messages ← B.messages_count s
    contacts ← B.contacts_count s
    unread ← B.chats_total_unread s
    ok (record { chats = chats; messages = messages; contacts = contacts; unread_total = unread })

  unfoldable pub list_reactions : String → B.State → Result (List Reaction)
  list_reactions message_id s =
      if is_blank message_id
      then err (invalid_request "message_id is required")
      else B.reactions_list_by_message_id message_id s

  unfoldable pub list_receipts : String → B.State → Result (List Receipt)
  list_receipts message_id s =
      if is_blank message_id
      then err (invalid_request "message_id is required")
      else B.receipts_list_by_message_id message_id s
