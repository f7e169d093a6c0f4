-- ===== src/Http/Reads.antt =====
-- internal/transport/http/{chats,messages,contacts,reactions,receipts,media,stats,status}.go: the
-- handlers that only read. A path parameter is a text; a query parameter that is absent is empty.
pub mod Blank
use whatsmeow_api.Prelude.{ℕ, String, Bool, Option, ◌==◌, if◌then◌else◌}
use whatsmeow_api.Time.{Time}
use whatsmeow_api.Json.{Json, object, field, num, end}
use whatsmeow_api.Errors.{Error, failure, Result, ok, err}
use whatsmeow_api.Store.{MediaRef}
use whatsmeow_api.Store.Bundle.{Bundle}
use whatsmeow_api.Waclient.Client.{WaClient}
use whatsmeow_api.Service.World.{MediaDisk, World}
use whatsmeow_api.Service.Query
use whatsmeow_api.Service.Query.{Stats}
use whatsmeow_api.Service.Send.{get_media_ref}
use whatsmeow_api.Service.Groups
use whatsmeow_api.Http.Params.{
  Param, value, invalid, parse_limit, parse_before, parse_include_archived,
}
use whatsmeow_api.Http.Encode.{
  listing, encode_chat, encode_message, encode_contact, encode_reaction, encode_receipt,
  encode_status,
}
use whatsmeow_api.Http.Response.{
  Response, problem, json, file, bad_request, internal, answer, read_problem, get_chat_problem,
  get_media_problem, error_text,
}

-- The early return on a bad parameter.
abbrev pub with_param {ℓ} : {A : Type ℓ} → Param A → (A → Response) → Response
with_param (invalid detail) next = bad_request detail
with_param (value a) next = next a

abbrev encode_stats : Stats → Json
encode_stats s = object (
    field "chats" (num s.chats) (
      field "messages" (num s.messages)
        (field "contacts" (num s.contacts) (field "unread_total" (num s.unread_total) end))))

-- `os.Open`, which fails or not, and then the bytes of the file.
abbrev opened : Result (Unit {0}) → MediaRef → Response
opened (err e) ref = problem 500 "media.read_failed" (error_text e)
opened (ok _) ref = file ref.mime ref.size ref.path

module _ (B : Bundle) where
  unfoldable pub list_chats_handler :
      (String → Option Time) → String → String → String → B.State → Response
  unfolding parse_limit parse_before parse_include_archived Query.list_chats read_problem
  list_chats_handler parse_time limit before include_archived s =
      with_param (parse_limit limit) (λ n. with_param (parse_before parse_time before) (λ t.
        with_param (parse_include_archived include_archived) (λ archived.
          answer (λ chats. json 200 (listing "chats" encode_chat chats)) read_problem
            (Query.list_chats B t n archived s))))

  unfoldable pub get_chat_handler : String → B.State → Response
  unfolding Query.get_chat get_chat_problem encode_chat
  get_chat_handler jid s =
      answer (λ c. json 200 (encode_chat c)) get_chat_problem (Query.get_chat B jid s)

  unfoldable pub list_messages_by_chat_handler :
      (String → Option Time) → String → String → String → B.State → Response
  unfolding parse_limit parse_before Query.list_messages read_problem
  list_messages_by_chat_handler parse_time jid limit before s = with_param (parse_limit limit) (λ n.
      with_param (parse_before parse_time before) (λ t.
        answer (λ ms. json 200 (listing "messages" encode_message ms)) read_problem
          (Query.list_messages B jid t n s)))

  unfoldable pub search_messages_handler : String → String → B.State → Response
  unfolding parse_limit Query.search_messages read_problem
  search_messages_handler q limit s =
      if q == ""
      then bad_request "q is required"
      else with_param (parse_limit limit) (λ n.
        answer (λ ms. json 200 (listing "messages" encode_message ms)) read_problem
          (Query.search_messages B q n s))

  unfoldable pub list_contacts_handler : B.State → Response
  unfolding Query.list_contacts
  list_contacts_handler s =
      answer (λ cs. json 200 (listing "contacts" encode_contact cs)) internal
        (Query.list_contacts B s)

  unfoldable pub search_contacts_handler : String → String → B.State → Response
  unfolding parse_limit Query.search_contacts read_problem
  search_contacts_handler q limit s =
      if q == ""
      then bad_request "q is required"
      else with_param (parse_limit limit) (λ n.
        answer (λ cs. json 200 (listing "contacts" encode_contact cs)) read_problem
          (Query.search_contacts B q n s))

  unfoldable pub list_reactions_handler : String → B.State → Response
  unfolding Query.list_reactions read_problem
  list_reactions_handler id s =
      answer (λ rs. json 200 (listing "reactions" encode_reaction rs)) read_problem
        (Query.list_reactions B id s)

  unfoldable pub list_receipts_handler : String → B.State → Response
  unfolding Query.list_receipts read_problem
  list_receipts_handler id s =
      answer (λ rs. json 200 (listing "receipts" encode_receipt rs)) read_problem
        (Query.list_receipts B id s)

  unfoldable pub stats_handler : B.State → Response
  unfolding Query.stats
  stats_handler s = answer (λ n. json 200 (encode_stats n)) internal (Query.stats B s)

module _ {B : Bundle} {W : WaClient} {D : MediaDisk} where
  unfoldable pub get_media_handler : (String → Result (Unit {0})) → String → World B W D → Response
  unfolding get_media_ref get_media_problem
  get_media_handler open_file id w =
      answer (λ ref. opened (open_file ref.path) ref) get_media_problem (get_media_ref id w)

  unfoldable pub status_handler : World B W D → Response
  unfolding Groups.status encode_status
  status_handler w = json 200 (encode_status (Groups.status w))
