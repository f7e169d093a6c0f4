-- ===== src/Mcp/Tools.antt =====
-- internal/transport/mcp/tools_*.go: a tool's handler calls one use case of the service, maps its
-- error by `mapErr`, and converts its value. The decoding of the input is the SDK's.
pub mod Refusals
pub mod Request
pub mod Parity
use whatsmeow_api.Prelude.{
  ℕ, String, Bool, true, false, Option, none, some, List, [], ◌∷◌, ◌==◌, if◌then◌else◌, ℤ,
}
use whatsmeow_api.Time.{Time, zero_time}
use whatsmeow_api.Json.{Json, bool, object, field, end}
use whatsmeow_api.Errors.{Result, ok, err}
use whatsmeow_api.Store.Bundle.{Bundle}
use whatsmeow_api.Waclient.{LoginEvent}
use whatsmeow_api.Waclient.Client.{WaClient}
use whatsmeow_api.Service.World.{MediaDisk, World}
use whatsmeow_api.Service.Query
use whatsmeow_api.Service.Send.{SendMediaRequest, send_text, send_media, get_media_ref}
use whatsmeow_api.Service.Edit.{edit_message, delete_message}
use whatsmeow_api.Service.React.{send_reaction, mark_message_read, send_typing}
use whatsmeow_api.Service.Groups
use whatsmeow_api.Http.Encode.{listing}
use whatsmeow_api.Mcp.Errors.{ToolError, tool_err, map_err}
use whatsmeow_api.Mcp.Outputs.{
  chat_to_output, message_to_output, contact_to_output, reaction_to_output, receipt_to_output,
  media_ref_to_output, group_member_to_output, group_to_output, participant_change_to_output,
  status_to_output, stats_to_output, login_to_output,
}

-- What a handler returns: its output, or what went wrong.
pub data ToolResult : Type 0 where
  output : Json → ToolResult
  failed : ToolError → ToolResult

abbrev pub to_tool {ℓ} : {A : Type ℓ} → (A → Json) → Result A → ToolResult
to_tool encode (ok a) = output (encode a)
to_tool encode (err e) = failed (map_err e)

-- `waOK`
abbrev pub wa_ok : Unit {0} → Json
wa_ok _ = object (field "ok" (bool true) end)

abbrev pub one {ℓ} : {A : Type ℓ} → String → (A → Json) → A → Json
one key encode a = object (field key (encode a) end)

-- `parseRFC3339OrZero`, where `time.Parse` is an argument; the error quotes the value, which is left out.
unfoldable pub parse_rfc3339_or_zero : (String → Option Time) → String → Option Time
parse_rfc3339_or_zero parse_time s = if s == "" then some zero_time else parse_time s

abbrev pub bounded : Option Time → (Time → ToolResult) → ToolResult
bounded none next = failed (tool_err "invalid before timestamp: must be RFC3339")
bounded (some t) next = next t

-- The tools that read the store. An omitted limit is decoded as 0.
module _ (B : Bundle) where
  unfoldable pub wa_list_chats : (String → Option Time) → String → ℤ → Bool → B.State → ToolResult
  unfolding Query.list_chats map_err chat_to_output parse_rfc3339_or_zero
  wa_list_chats parse_time before limit include_archived s =
      bounded (parse_rfc3339_or_zero parse_time before) (λ t.
        to_tool (listing "chats" chat_to_output) (Query.list_chats B t limit include_archived s))

  unfoldable pub wa_get_chat : String → B.State → ToolResult
  unfolding Query.get_chat map_err chat_to_output
  wa_get_chat jid s = to_tool chat_to_output (Query.get_chat B jid s)

  unfoldable pub wa_list_messages :
      (String → Option Time) → String → String → ℤ → B.State → ToolResult
  unfolding Query.list_messages map_err message_to_output parse_rfc3339_or_zero
  wa_list_messages parse_time chat_jid before limit s =
      bounded (parse_rfc3339_or_zero parse_time before) (λ t.
        to_tool (listing "messages" message_to_output) (Query.list_messages B chat_jid t limit s))

  unfoldable pub wa_search_messages : String → ℤ → B.State → ToolResult
  unfolding Query.search_messages map_err message_to_output
  wa_search_messages query limit s =
      to_tool (listing "messages" message_to_output) (Query.search_messages B query limit s)

  unfoldable pub wa_list_reactions : String → B.State → ToolResult
  unfolding Query.list_reactions map_err reaction_to_output
  wa_list_reactions message_id s =
      to_tool (listing "reactions" reaction_to_output) (Query.list_reactions B message_id s)

  unfoldable pub wa_list_receipts : String → B.State → ToolResult
  unfolding Query.list_receipts map_err receipt_to_output
  wa_list_receipts message_id s =
      to_tool (listing "receipts" receipt_to_output) (Query.list_receipts B message_id s)

  unfoldable pub wa_list_contacts : B.State → ToolResult
  unfolding Query.list_contacts map_err contact_to_output
  wa_list_contacts s = to_tool (listing "contacts" contact_to_output) (Query.list_contacts B s)

  unfoldable pub wa_search_contacts : String → ℤ → B.State → ToolResult
  unfolding Query.search_contacts map_err contact_to_output
  wa_search_contacts query limit s =
      to_tool (listing "contacts" contact_to_output) (Query.search_contacts B query limit s)

  unfoldable pub wa_stats : B.State → ToolResult
  unfolding Query.stats map_err stats_to_output
  wa_stats s = to_tool stats_to_output (Query.stats B s)

-- The first frame of a login; a closed channel yields the zero value.
abbrev pub first_event : List LoginEvent → LoginEvent
first_event [] = record { code = ""; terminal = false; outcome = "" }
first_event (ev ∷ _) = ev

module _ {B : Bundle} {W : WaClient} {D : MediaDisk} where
  abbrev pub tool {ℓ} :
      {A : Type ℓ} → (A → Json) → Result A × World B W D → ToolResult × World B W D
  tool encode (r, w) = (to_tool encode r, w)

  unfoldable pub wa_get_media : String → World B W D → ToolResult
  unfolding get_media_ref map_err media_ref_to_output
  wa_get_media message_id w = to_tool media_ref_to_output (get_media_ref message_id w)

  unfoldable pub wa_status : World B W D → ToolResult
  unfolding Groups.status status_to_output
  wa_status w = output (status_to_output (Groups.status w))

  unfoldable pub wa_send_text : String → String → String → World B W D → ToolResult × World B W D
  unfolding send_text map_err message_to_output
  wa_send_text chat_jid text reply_to w =
      tool (one "message" message_to_output) (send_text chat_jid text reply_to w)

  -- The request's body is what `base64` makes of the input, or nothing.
  unfoldable pub wa_send_media :
      SendMediaRequest → Option (List ℕ) → World B W D → ToolResult × World B W D
  unfolding send_media map_err message_to_output
  wa_send_media req none w =
      (failed (tool_err "invalid request: body_base64 must be standard base64"), w)
  wa_send_media req (some body) w =
      tool (one "message" message_to_output) (send_media (record req { body = body }) w)

  unfoldable pub wa_edit_message : String → String → World B W D → ToolResult × World B W D
  unfolding edit_message map_err message_to_output
  wa_edit_message message_id text w =
      tool (one "message" message_to_output) (edit_message message_id text w)

  unfoldable pub wa_delete_message : String → World B W D → ToolResult × World B W D
  unfolding delete_message map_err
  wa_delete_message message_id w = tool wa_ok (delete_message message_id w)

  unfoldable pub wa_react : String → String → World B W D → ToolResult × World B W D
  unfolding send_reaction map_err
  wa_react message_id emoji w = tool wa_ok (send_reaction message_id emoji w)

  unfoldable pub wa_mark_read : String → World B W D → ToolResult × World B W D
  unfolding mark_message_read map_err
  wa_mark_read message_id w = tool wa_ok (mark_message_read message_id w)

  unfoldable pub wa_typing : String → String → World B W D → ToolResult × World B W D
  unfolding send_typing map_err
  wa_typing chat_jid state w = tool wa_ok (send_typing chat_jid state w)

  -- `arrives`: the channel yields before the caller's context ends.
  abbrev pub first_or_timeout :
      String → Bool → Result (List LoginEvent) × World B W D → ToolResult × World B W D
  first_or_timeout late arrives (err e, w) = (failed (map_err e), w)
  first_or_timeout late true (ok evs, w) = (output (login_to_output (first_event evs)), w)
  first_or_timeout late false (ok evs, w) = (failed (tool_err late), w)

  unfoldable pub wa_login_qr : Bool → World B W D → ToolResult × World B W D
  unfolding Groups.login_qr map_err login_to_output
  wa_login_qr arrives w =
      first_or_timeout "login_qr: timed out waiting for QR event" arrives (Groups.login_qr w)

  unfoldable pub wa_login_phone : String → Bool → World B W D → ToolResult × World B W D
  unfolding Groups.login_phone map_err login_to_output
  wa_login_phone phone arrives w =
      first_or_timeout "login_phone: timed out waiting for pairing code" arrives
        (Groups.login_phone phone w)

  unfoldable pub wa_logout : World B W D → ToolResult × World B W D
  unfolding Groups.logout map_err
  wa_logout w = tool wa_ok (Groups.logout w)

  unfoldable pub wa_create_group : String → List String → World B W D → ToolResult × World B W D
  unfolding Groups.create_group map_err group_to_output
  wa_create_group name participant_jids w =
      tool (one "group" group_to_output) (Groups.create_group name participant_jids w)

  unfoldable pub wa_list_group_members : String → World B W D → ToolResult × World B W D
  unfolding Groups.list_group_members map_err group_member_to_output
  wa_list_group_members group_jid w =
      tool (listing "members" group_member_to_output) (Groups.list_group_members group_jid w)

  unfoldable pub wa_update_group_members :
      String → String → List String → World B W D → ToolResult × World B W D
  unfolding Groups.update_group_members map_err participant_change_to_output
  wa_update_group_members group_jid action participant_jids w =
      tool (listing "results" participant_change_to_output)
        (Groups.update_group_members group_jid action participant_jids w)

  unfoldable pub wa_leave_group : String → World B W D → ToolResult × World B W D
  unfolding Groups.leave_group map_err
  wa_leave_group group_jid w = tool wa_ok (Groups.leave_group group_jid w)
