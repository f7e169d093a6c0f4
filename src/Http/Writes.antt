-- ===== src/Http/Writes.antt =====
-- internal/transport/http/{messages,media,reactions,receipts,typing,groups}.go: the handlers that
-- change something. A body is what `encoding/json` makes of it, or `none` where it is malformed.
pub mod Refusals
use whatsmeow_api.Prelude.{ℕ, String, Option, none, some, List, len, ltb, ◌==◌, if◌then◌else◌}
use whatsmeow_api.Time.{Time}
use whatsmeow_api.Json.{Json, object, field, text, time, end, Fields}
use whatsmeow_api.Errors.{Error, Result, ok, err}
use whatsmeow_api.Store.{Message}
use whatsmeow_api.Store.Bundle.{Bundle}
use whatsmeow_api.Waclient.Client.{WaClient}
use whatsmeow_api.Service.World.{MediaDisk, World}
use whatsmeow_api.Text.{concat}
use whatsmeow_api.Service.Send.{send_text, send_media}
use whatsmeow_api.Http.Form.{
  FormBody, not_multipart, without_file, unreadable, form, media_of, pick_mime,
}
use whatsmeow_api.Service.Edit.{edit_message, delete_message}
use whatsmeow_api.Service.React.{send_reaction, mark_message_read, send_typing}
use whatsmeow_api.Service.Groups.{
  create_group, list_group_members, update_group_members, leave_group,
}
use whatsmeow_api.Http.Encode.{rfc3339, listing, encode_group, encode_member, encode_change}
use whatsmeow_api.Http.Response.{
  Response, json, no_content, bad_request, answer, send_problem, react_problem, edit_problem,
  members_problem,
}

pub record SendTextRequest : Type 0 where
  pub chat_jid : String
  pub text : String
  pub reply_to : String

abbrev pub sent_json : Message → Json → Json
sent_json m ts =
    object (field "id" (text m.id) (field "chat_jid" (text m.chat_jid) (field "ts" ts end)))

abbrev edited_at : Option Time → Fields
edited_at none = end
edited_at (some t) = field "edited_at" (rfc3339 t) end

abbrev pub edited_json : Message → Json
edited_json m = object (
    field "id" (text m.id) (
      field "chat_jid" (text m.chat_jid)
        (field "ts" (rfc3339 m.timestamp) (edited_at m.edited_at))))

abbrev done : Unit {0} → Response
done _ = no_content

abbrev malformed : Response
malformed = bad_request "malformed JSON body"

module _ {B : Bundle} {W : WaClient} {D : MediaDisk} where
  abbrev pub respond {ℓ} :
      {A : Type ℓ}
      → (A → Response)
      → (Error → Response)
      → Result A × World B W D
      → Response × World B W D
  respond good bad (r, w) = (answer good bad r, w)

  unfoldable pub send_text_handler : Option SendTextRequest → World B W D → Response × World B W D
  unfolding send_text send_problem
  send_text_handler none w = (malformed, w)
  send_text_handler (some req) w =
      if req.chat_jid == ""
      then (bad_request "chat_jid is required", w)
      else if req.text == ""
      then (bad_request "text is required", w)
      else if ltb 4096 (len req.text)
      then (bad_request "text exceeds 4096 bytes", w)
      else respond (λ m. json 201 (sent_json m (time m.timestamp))) send_problem
          (send_text req.chat_jid req.text req.reply_to w)

  unfoldable pub edit_message_handler :
      String → Option String → World B W D → Response × World B W D
  unfolding edit_message edit_problem
  edit_message_handler id none w = (malformed, w)
  edit_message_handler id (some new_text) w =
      if new_text == ""
      then (bad_request "text is required", w)
      else respond (λ m. json 200 (edited_json m)) edit_problem (edit_message id new_text w)

  unfoldable pub delete_message_handler : String → World B W D → Response × World B W D
  unfolding delete_message edit_problem
  delete_message_handler id w = respond done edit_problem (delete_message id w)

  -- `types` is `mime.TypeByExtension`.
  unfoldable pub send_media_handler :
      (String → String) → FormBody → World B W D → Response × World B W D
  unfolding send_media send_problem pick_mime
  send_media_handler types (not_multipart why) w = (bad_request (concat "multipart parse: " why), w)
  send_media_handler types without_file w = (bad_request "file is required", w)
  send_media_handler types (unreadable why) w = (bad_request (concat "read file: " why), w)
  send_media_handler types (form f) w =
      respond (λ m. json 201 (sent_json m (rfc3339 m.timestamp))) send_problem
        (send_media (media_of (pick_mime types f.content_type f.filename) f) w)

  unfoldable pub send_reaction_handler :
      String → Option String → World B W D → Response × World B W D
  unfolding send_reaction react_problem
  send_reaction_handler id none w = (malformed, w)
  send_reaction_handler id (some emoji) w = respond done react_problem (send_reaction id emoji w)

  unfoldable pub mark_read_handler : String → World B W D → Response × World B W D
  unfolding mark_message_read react_problem
  mark_read_handler id w = respond done react_problem (mark_message_read id w)

  unfoldable pub send_typing_handler : String → Option String → World B W D → Response × World B W D
  unfolding send_typing send_problem
  send_typing_handler jid none w = (malformed, w)
  send_typing_handler jid (some state) w = respond done send_problem (send_typing jid state w)

  unfoldable pub create_group_handler :
      Option (String × List String) → World B W D → Response × World B W D
  unfolding create_group send_problem encode_group
  create_group_handler none w = (malformed, w)
  create_group_handler (some (name, participants)) w =
      respond (λ g. json 201 (encode_group g)) send_problem (create_group name participants w)

  unfoldable pub list_group_members_handler : String → World B W D → Response × World B W D
  unfolding list_group_members members_problem
  list_group_members_handler jid w =
      respond (λ ms. json 200 (listing "members" encode_member ms)) members_problem
        (list_group_members jid w)

  unfoldable pub update_group_members_handler :
      String → Option (String × List String) → World B W D → Response × World B W D
  unfolding update_group_members send_problem
  update_group_members_handler jid none w = (malformed, w)
  update_group_members_handler jid (some (action, participants)) w =
      respond (λ cs. json 200 (listing "results" encode_change cs)) send_problem
        (update_group_members jid action participants w)

  unfoldable pub leave_group_handler : String → World B W D → Response × World B W D
  unfolding leave_group send_problem
  leave_group_handler jid w = respond done send_problem (leave_group jid w)
