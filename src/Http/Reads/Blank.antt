-- ===== src/Http/Reads/Blank.antt =====
-- A path parameter that is blank.
use whatsmeow_api.Prelude.{◌≡◌, refl, String, true, Option}
use whatsmeow_api.Text.{is_blank}
use whatsmeow_api.Time.{Time}
use whatsmeow_api.Store.Bundle.{Bundle}
use whatsmeow_api.Http.Response.{problem}
use whatsmeow_api.Http.Reads.{
  get_chat_handler, list_messages_by_chat_handler, list_reactions_handler, list_receipts_handler,
}

module _ (B : Bundle) (s : B.State) (id : String) where
  -- A blank identifier in the path is answered with status 400 by the lists of a chat's messages, of a
  -- message's reactions and of its receipts, but with status 500 by the lookup of a chat.
  pub get_chat_handler-blank :
      is_blank id ≡ true
      → (parse_time : String → Option Time)
      → (list_messages_by_chat_handler B parse_time id "" "" s
          ≡ problem 400 "request.invalid" "service: invalid request: chat_jid is required")
        × (list_reactions_handler B id s
            ≡ problem 400 "request.invalid" "service: invalid request: message_id is required")
        × (list_receipts_handler B id s
            ≡ problem 400 "request.invalid" "service: invalid request: message_id is required")
        × (get_chat_handler B id s
            ≡ problem 500 "internal" "service: invalid request: jid is required")
  unfolding list_messages_by_chat_handler list_reactions_handler list_receipts_handler
      get_chat_handler
  get_chat_handler-blank blank parse_time =
      (rw blank refl, rw blank refl, rw blank refl, rw blank refl)
