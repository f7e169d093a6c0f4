-- ===== src/Tests/Tools.antt =====
-- The tools of internal/transport/mcp, evaluated.
use whatsmeow_api.Text.{is_blank}
use whatsmeow_api.Prelude.{◌==◌, ◌≡◌, refl, true, none, arith, pos, ◌∷◌, [], String, false}
use whatsmeow_api.Sqlite.Store.{bundle}
use whatsmeow_api.Mcp.Errors.{handler_error}
use whatsmeow_api.Mcp.Tools.{
  failed, wa_list_chats, wa_list_messages, wa_search_messages, wa_search_contacts, wa_login_phone,
}
use whatsmeow_api.Mcp.Tools.Refusals.{IsToolError, limit_omitted-IsToolError, wa_login_phone-plain}
use whatsmeow_api.Mcp.Tools.Request.{media_request, named, via_http, via_mcp}
use whatsmeow_api.Mcp.Tools.Parity.{is_success, is_output, via_http-via_mcp}
use whatsmeow_api.Http.Form.{MediaForm, pick_mime}
use whatsmeow_api.Http.Writes.{send_media_handler}
use whatsmeow_api.Tests.Samples.{ann, db, engine, world}

limit_omitted-IsToolError_example :
    IsToolError (wa_list_chats (bundle engine) (λ _. none) "" (pos 0) true db)
    × IsToolError (wa_list_messages (bundle engine) (λ _. none) ann "" (pos 0) db)
    × IsToolError (wa_search_messages (bundle engine) "hello" (pos 0) db)
    × IsToolError (wa_search_contacts (bundle engine) "hello" (pos 0) db)
limit_omitted-IsToolError_example =
    limit_omitted-IsToolError (bundle engine) (λ _. none) db "" ann "hello" true

wa_login_phone-plain_example :
    wa_login_phone "1415" true world ≡ (failed (handler_error "internal error"), world)
wa_login_phone-plain_example =
    wa_login_phone-plain world "1415" true b'1' (b'4' ∷ b'1' ∷ b'5' ∷ []) refl
      (λ e. omega (arith, e))

abbrev no_types : String → String
no_types extension = ""

-- A file without a MIME type.
abbrev file : MediaForm
file = record {
  chat_jid = ann;
  kind = "document";
  caption = "";
  filename = "notes.xyz";
  content_type = "";
  body = 1 ∷ [];
}

via_http-via_mcp_example :
    (((via_http no_types (media_request file) world).1
        ≡ (via_mcp (named no_types (media_request file)) world).1)
      × (is_success (via_http no_types (media_request file) world).0
          ≡ is_output (via_mcp (named no_types (media_request file)) world).0))
    × ((f : MediaForm)
        → ((pick_mime no_types f.content_type f.filename == "") ≡ false)
          × ((via_mcp (media_request (record f { content_type = "" })) world).1 ≡ world)
          × (is_output (via_mcp (media_request (record f { content_type = "" })) world).0 ≡ false))
via_http-via_mcp_example = via_http-via_mcp no_types (media_request file) world

-- With the type that the HTTP interface finds for it, the file is sent.
file_sent : is_success (via_http no_types (media_request file) world).0 ≡ true
unfolding via_http send_media_handler is_blank
file_sent = refl
