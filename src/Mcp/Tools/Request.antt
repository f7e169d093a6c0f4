-- ===== src/Mcp/Tools/Request.antt =====
-- internal/transport/http/router.go and internal/transport/mcp/tools_*.go: the same request over both
-- interfaces.
use whatsmeow_api.Prelude.{String, some, List}
use whatsmeow_api.Store.Bundle.{Bundle}
use whatsmeow_api.Waclient.Client.{WaClient}
use whatsmeow_api.Service.World.{MediaDisk, World}
use whatsmeow_api.Http.Form.{MediaForm, form, media_of, pick_mime}
use whatsmeow_api.Http.Response.{Response}
use whatsmeow_api.Http.Login.{logout_handler}
use whatsmeow_api.Http.Writes.{
  SendTextRequest, send_text_handler, edit_message_handler, delete_message_handler,
  send_media_handler, send_reaction_handler, mark_read_handler, send_typing_handler,
  create_group_handler, update_group_members_handler, leave_group_handler,
  list_group_members_handler,
}
use whatsmeow_api.Mcp.Tools.{
  ToolResult, wa_send_text, wa_send_media, wa_edit_message, wa_delete_message, wa_react,
  wa_mark_read, wa_typing, wa_create_group, wa_update_group_members, wa_leave_group,
  wa_list_group_members, wa_logout,
}

-- A request that both interfaces take: each that changes something, but for the logins, whose tools
-- wait for the first code only. A file comes with the MIME type that the caller gave, or none.
pub data Request : Type 0 where
  text_request : SendTextRequest → Request
  media_request : MediaForm → Request
  edit_request : String → String → Request
  delete_request : String → Request
  react_request : String → String → Request
  read_request : String → Request
  typing_request : String → String → Request
  group_request : String → List String → Request
  members_request : String → String → List String → Request
  leave_request : String → Request
  list_request : String → Request
  logout_request : Request

-- A file's MIME type is filled in as the HTTP interface does it.
abbrev pub named : (String → String) → Request → Request
named types (media_request f) =
    media_request (record f { content_type = pick_mime types f.content_type f.filename })
named types r = r

module _ {B : Bundle} {W : WaClient} {D : MediaDisk} where
  unfoldable pub via_http : (String → String) → Request → World B W D → Response × World B W D
  unfolding send_text_handler send_media_handler edit_message_handler delete_message_handler
      send_reaction_handler mark_read_handler send_typing_handler create_group_handler
      update_group_members_handler leave_group_handler list_group_members_handler logout_handler
  via_http types (text_request req) w = send_text_handler (some req) w
  via_http types (media_request f) w = send_media_handler types (form f) w
  via_http types (edit_request id text) w = edit_message_handler id (some text) w
  via_http types (delete_request id) w = delete_message_handler id w
  via_http types (react_request id emoji) w = send_reaction_handler id (some emoji) w
  via_http types (read_request id) w = mark_read_handler id w
  via_http types (typing_request jid state) w = send_typing_handler jid (some state) w
  via_http types (group_request name members) w = create_group_handler (some (name, members)) w
  via_http types (members_request jid action members) w =
      update_group_members_handler jid (some (action, members)) w
  via_http types (leave_request jid) w = leave_group_handler jid w
  via_http types (list_request jid) w = list_group_members_handler jid w
  via_http types logout_request w = logout_handler w

  unfoldable pub via_mcp : Request → World B W D → ToolResult × World B W D
  unfolding wa_send_text wa_send_media wa_edit_message wa_delete_message wa_react wa_mark_read
      wa_typing wa_create_group wa_update_group_members wa_leave_group wa_list_group_members
      wa_logout
  via_mcp (text_request req) w = wa_send_text req.chat_jid req.text req.reply_to w
  via_mcp (media_request f) w = wa_send_media (media_of f.content_type f) (some f.body) w
  via_mcp (edit_request id text) w = wa_edit_message id text w
  via_mcp (delete_request id) w = wa_delete_message id w
  via_mcp (react_request id emoji) w = wa_react id emoji w
  via_mcp (read_request id) w = wa_mark_read id w
  via_mcp (typing_request jid state) w = wa_typing jid state w
  via_mcp (group_request name members) w = wa_create_group name members w
  via_mcp (members_request jid action members) w = wa_update_group_members jid action members w
  via_mcp (leave_request jid) w = wa_leave_group jid w
  via_mcp (list_request jid) w = wa_list_group_members jid w
  via_mcp logout_request w = wa_logout w
