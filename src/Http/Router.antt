-- ===== src/Http/Router.antt =====
-- internal/transport/http/router.go: `NewRouter`, and health.go. chi picks the route and its path's
-- parameters, and net/http and `encoding/json` read the query and the body: a `Routed` is the route
-- with what its handler reads. RequestID, the logger and Recoverer change no answer of a handler that
-- returns.
pub mod Guard
use whatsmeow_api.Prelude.{ℕ, ℤ, String, Bool, true, Option, none, some, List, if◌then◌else◌}
use whatsmeow_api.Time.{Time}
use whatsmeow_api.Json.{bool, object, field, end, null}
use whatsmeow_api.Errors.{Result}
use whatsmeow_api.Store.{EventLogEntry}
use whatsmeow_api.Store.Bundle.{Bundle}
use whatsmeow_api.Waclient.Client.{WaClient}
use whatsmeow_api.Service.World.{MediaDisk, World}
use whatsmeow_api.Http.Form.{FormBody}
use whatsmeow_api.Service.Groups.{status}
use whatsmeow_api.Config.{Config}
use whatsmeow_api.Http.Response.{Response, problem, json}
use whatsmeow_api.Http.Auth.{require_bearer_token}
use whatsmeow_api.Http.Reads.{
  status_handler, list_chats_handler, get_chat_handler, list_messages_by_chat_handler,
  search_messages_handler, list_contacts_handler, search_contacts_handler, stats_handler,
  get_media_handler, list_reactions_handler, list_receipts_handler,
}
use whatsmeow_api.Http.Login.{login_qr_handler, login_phone_handler, logout_handler}
use whatsmeow_api.Http.Writes.{
  SendTextRequest, send_text_handler, edit_message_handler, delete_message_handler,
  send_media_handler, send_reaction_handler, mark_read_handler, send_typing_handler,
  create_group_handler, list_group_members_handler, update_group_members_handler,
  leave_group_handler,
}
use whatsmeow_api.Http.Events.{Wake, StreamResponse, events_handler}

-- The routes of `NewRouter` in their order. A body is `none` where it is malformed.
pub data Routed : Type 0 where
  get_health : Routed
  get_status : Routed
  post_login_qr : Routed
  post_login_phone : Option String → Routed
  post_logout : Routed
  post_messages : Option SendTextRequest → Routed
  patch_message : String → Option String → Routed
  delete_message_route : String → Routed
  get_chats : String → String → String → Routed
  get_chat_route : String → Routed
  get_chat_messages : String → String → String → Routed
  get_messages_search : String → String → Routed
  get_contacts : Routed
  get_contacts_search : String → String → Routed
  get_stats : Routed
  post_media : FormBody → Routed
  get_media : String → Routed
  post_reactions : String → Option String → Routed
  get_reactions : String → Routed
  post_read : String → Routed
  get_receipts : String → Routed
  post_typing : String → Option String → Routed
  post_groups : Option (String × List String) → Routed
  get_members : String → Routed
  post_members : String → Option (String × List String) → Routed
  delete_membership : String → Routed
  get_events : String → String → Routed
  mount_mcp : Routed

pub data Answer : Type 0 where
  whole : Response → Answer
  streamed : StreamResponse → Answer
  -- chi's own answer where no route matches.
  no_route : Answer

unfoldable pub health_handler : Response
health_handler =
    json 200 (object (field "ok" (bool true) (field "db" null (field "wa_connected" null end))))

-- Whether a route stands outside of the group with the token, inside of it, or is not mounted.
pub data Access : Type 0 where
  open_to_all : Access
  guarded : Access
  absent : Access

unfoldable pub access : Config → Routed → Access
access c get_health = open_to_all
access c mount_mcp = if c.mcp_enabled then guarded else absent
access c _ = guarded

-- What the handlers find outside of the service: `time.Parse`, `mime.TypeByExtension`, `os.Open`, the reads of the events log,
-- what wakes the live tail, and the handler of the MCP server.
pub record Around (B : Bundle) (W : WaClient) (D : MediaDisk) : Type 0 where
  pub parse_time : String → Option Time
  pub types : String → String
  pub open_file : String → Result (Unit {0})
  pub since : ℕ → ℕ → ℤ → Result (List EventLogEntry)
  pub reads : ℕ
  pub wakes : List Wake
  pub mcp : World B W D → Response × World B W D

module _ {B : Bundle} {W : WaClient} {D : MediaDisk} (around : Around B W D) where
  abbrev changing : Response × World B W D → Answer × World B W D
  changing (r, w) = (whole r, w)

  unfoldable pub handle : Routed → World B W D → Answer × World B W D
  handle get_health w = (whole health_handler, w)
  handle get_status w = (whole (status_handler w), w)
  handle post_login_qr w = changing (login_qr_handler w)
  handle (post_login_phone body) w = changing (login_phone_handler body w)
  handle post_logout w = changing (logout_handler w)
  handle (post_messages body) w = changing (send_text_handler body w)
  handle (patch_message id body) w = changing (edit_message_handler id body w)
  handle (delete_message_route id) w = changing (delete_message_handler id w)
  handle (get_chats limit before archived) w =
      (whole (list_chats_handler B around.parse_time limit before archived w.store), w)
  handle (get_chat_route jid) w = (whole (get_chat_handler B jid w.store), w)
  handle (get_chat_messages jid limit before) w =
      (whole (list_messages_by_chat_handler B around.parse_time jid limit before w.store), w)
  handle (get_messages_search q limit) w = (whole (search_messages_handler B q limit w.store), w)
  handle get_contacts w = (whole (list_contacts_handler B w.store), w)
  handle (get_contacts_search q limit) w = (whole (search_contacts_handler B q limit w.store), w)
  handle get_stats w = (whole (stats_handler B w.store), w)
  handle (post_media body) w = changing (send_media_handler around.types body w)
  handle (get_media id) w = (whole (get_media_handler around.open_file id w), w)
  handle (post_reactions id body) w = changing (send_reaction_handler id body w)
  handle (get_reactions id) w = (whole (list_reactions_handler B id w.store), w)
  handle (post_read id) w = changing (mark_read_handler id w)
  handle (get_receipts id) w = (whole (list_receipts_handler B id w.store), w)
  handle (post_typing jid body) w = changing (send_typing_handler jid body w)
  handle (post_groups body) w = changing (create_group_handler body w)
  handle (get_members jid) w = changing (list_group_members_handler jid w)
  handle (post_members jid body) w = changing (update_group_members_handler jid body w)
  handle (delete_membership jid) w = changing (leave_group_handler jid w)
  handle (get_events last_event_id since_seq) w = (
    streamed
        (events_handler last_event_id since_seq (status w) around.since around.reads around.wakes),
    w,
  )
  handle mount_mcp w = changing (around.mcp w)

  -- The token's middleware before a handler.
  abbrev pub admitted : Option Response → Routed → World B W D → Answer × World B W D
  admitted none m w = handle m w
  admitted (some refused) m w = (whole refused, w)

  abbrev pub by_access : Access → String → String → Routed → World B W D → Answer × World B W D
  by_access open_to_all token header m w = handle m w
  by_access guarded token header m w = admitted (require_bearer_token token header) m w
  by_access absent token header m w = (no_route, w)

  -- The router, on a request with an Authorization header.
  unfoldable pub serve : Config → String → Routed → World B W D → Answer × World B W D
  unfolding access handle require_bearer_token
  serve c header m w = by_access (access c m) c.token header m w
