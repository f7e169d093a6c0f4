-- ===== src/Tests/Requests.antt =====
-- The theorems on the HTTP interface, at concrete requests.
use whatsmeow_api.Prelude.{
  ◌≤◌, ◌≡◌, refl, String, Bool, true, none, some, List, length, Option, pos,
}
use whatsmeow_api.Prelude.{List, [], ◌∷◌, All, arith}
use whatsmeow_api.Text
use whatsmeow_api.Text.{codes}
use whatsmeow_api.Time.{Time}
use whatsmeow_api.Errors.{ok}
use whatsmeow_api.Store.{Chat, Message, Contact}
use whatsmeow_api.Sqlite.Store.{bundle}
use whatsmeow_api.Service.Query.{list_chats, list_messages, search_messages, search_contacts}
use whatsmeow_api.Service.Query.Pages.{pages-bounded}
use whatsmeow_api.Http.Response.{problem}
use whatsmeow_api.Http.Auth.{require_bearer_token}
use whatsmeow_api.Http.Reads.{
  get_chat_handler, list_messages_by_chat_handler, list_reactions_handler, list_receipts_handler,
}
use whatsmeow_api.Http.Reads.Blank.{get_chat_handler-blank}
use whatsmeow_api.Client.Sse.{SseFrame, read_sse}
use whatsmeow_api.Client.Sse.RoundTrip.{IsFrame, write_all, no_break→OneLine, read_sse-write_all}
use whatsmeow_api.Prelude.{Bool, false, ◌==◌}
use whatsmeow_api.Config.{Config, defaults, validate}
use whatsmeow_api.Config.Exposure.{validate-protected}
use whatsmeow_api.Http.Auth.{bearer_token}
use whatsmeow_api.Tests.Samples.{engine, db}

blank : Text.is_blank " " ≡ true
unfolding Text.is_blank
blank = refl

abbrev no_time : String → Option Time
no_time _ = none

get_chat_handler-blank_example :
    (list_messages_by_chat_handler (bundle engine) no_time " " "" "" db
      ≡ problem 400 "request.invalid" "service: invalid request: chat_jid is required")
    × (list_reactions_handler (bundle engine) " " db
        ≡ problem 400 "request.invalid" "service: invalid request: message_id is required")
    × (list_receipts_handler (bundle engine) " " db
        ≡ problem 400 "request.invalid" "service: invalid request: message_id is required")
    × (get_chat_handler (bundle engine) " " db
        ≡ problem 500 "internal" "service: invalid request: jid is required")
get_chat_handler-blank_example = get_chat_handler-blank (bundle engine) db " " blank no_time

pages-bounded_example :
    ((before : Time) (archived : Bool) (page : List Chat)
      → list_chats (bundle engine) before (pos 100) archived db ≡ ok page
      → length page ≤ 100)
    × ((jid : String) (before : Time) (page : List Message)
        → list_messages (bundle engine) jid before (pos 100) db ≡ ok page
        → length page ≤ 100)
    × ((q : String) (page : List Message)
        → search_messages (bundle engine) q (pos 100) db ≡ ok page
        → length page ≤ 100)
    × ((q : String) (page : List Contact)
        → search_contacts (bundle engine) q (pos 100) db ≡ ok page
        → length page ≤ 100)
pages-bounded_example = pages-bounded engine db (pos 100)

-- The two frames of a login by code.
abbrev frames : List SseFrame
frames =
    record { event = codes "qr"; payload = codes "{\"code\":\"2@x\"}" }
    ∷ record { event = codes "connection"; payload = codes "{\"outcome\":\"ok\"}" }
    ∷ []

frames-IsFrame : All IsFrame frames
frames-IsFrame = (
  record {
    named = λ e. absurd (cc);
    event_line = no_break→OneLine (codes "qr") refl;
    data_line = no_break→OneLine (codes "{\"code\":\"2@x\"}") refl;
    event_room = omega arith;
    data_room = omega arith;
  },
  (
    record {
      named = λ e. absurd (cc);
      event_line = no_break→OneLine (codes "connection") refl;
      data_line = no_break→OneLine (codes "{\"outcome\":\"ok\"}") refl;
      event_room = omega arith;
      data_room = omega arith;
    },
    tt,
  ),
)

read_sse-write_all_example : read_sse (write_all frames) ≡ frames
read_sse-write_all_example = read_sse-write_all frames frames-IsFrame

-- The defaults, with a token and open to the network.
abbrev open_config : Config
open_config = record defaults { bind = "0.0.0.0"; token = "key" }

abbrev is_loopback : String → Bool
is_loopback bind = bind == "127.0.0.1"

validate-protected_example :
    ((open_config.token == "") ≡ false)
    × (bearer_token "Bearer key" ≡ some (codes open_config.token))
unfolding validate require_bearer_token
validate-protected_example = validate-protected is_loopback open_config refl refl "Bearer key" refl
