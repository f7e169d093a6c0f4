-- ===== src/Mcp/Tools/Refusals.antt =====
-- internal/transport/mcp/tools_*.go: inputs that the descriptions of the tools invite and that are
-- refused.
use whatsmeow_api.Prelude.{
  ℕ, ◌≡◌, ◌≢◌, refl, String, Bool, Option, none, some, List, ◌∷◌, arith, Bool-cases, inl, inr, pos,
}
use whatsmeow_api.Text.{codes, is_blank}
use whatsmeow_api.Time.{Time}
use whatsmeow_api.Store.Bundle.{Bundle}
use whatsmeow_api.Waclient.Client.{WaClient}
use whatsmeow_api.Waclient.Jid.{IsE164, is_valid_phone_number, is_valid_phone_number_iff}
use whatsmeow_api.Service.World.{MediaDisk, World, validate_limit}
use whatsmeow_api.Service.Query
use whatsmeow_api.Service.Groups
use whatsmeow_api.Mcp.Errors.{tool_err, handler_error, map_err}
use whatsmeow_api.Mcp.Tools.{
  ToolResult, failed, parse_rfc3339_or_zero, bounded, wa_list_chats, wa_list_messages,
  wa_search_messages, wa_search_contacts, wa_login_phone,
}

-- The tool's result says what is wrong.
abbrev pub IsToolError : ToolResult → Type 0
IsToolError t = (why : String) × (t ≡ failed (tool_err why))

bounded-IsToolError :
    (t : Option Time) (next : Time → ToolResult)
    → ((t : Time) → IsToolError (next t))
    → IsToolError (bounded t next)
bounded-IsToolError none next h = ("invalid before timestamp: must be RFC3339", refl)
bounded-IsToolError (some t) next h = h t

module _ (B : Bundle) (parse_time : String → Option Time) (s : B.State) where
  list_chats-IsToolError :
      (before : String) (include_archived : Bool)
      → IsToolError (wa_list_chats B parse_time before (pos 0) include_archived s)
  unfolding wa_list_chats map_err Query.list_chats validate_limit
  list_chats-IsToolError before include_archived =
      bounded-IsToolError (parse_rfc3339_or_zero parse_time before) _ (λ t. (_, refl))

  list_messages-IsToolError :
      (chat_jid before : String)
      → IsToolError (wa_list_messages B parse_time chat_jid before (pos 0) s)
  unfolding wa_list_messages map_err Query.list_messages validate_limit
  list_messages-IsToolError chat_jid before =
      bounded-IsToolError (parse_rfc3339_or_zero parse_time before) _ (λ t.
        elim (Bool-cases (is_blank chat_jid)) [
          | inl blank ↦ rw blank (_, refl)
          | inr named ↦ rw named (_, refl)
        ])

  search_messages-IsToolError :
      (query : String) → IsToolError (wa_search_messages B query (pos 0) s)
  unfolding wa_search_messages map_err Query.search_messages validate_limit
  search_messages-IsToolError query = elim (Bool-cases (is_blank query)) [
    | inl blank ↦ rw blank (_, refl)
    | inr some_query ↦ rw some_query (_, refl)
  ]

  search_contacts-IsToolError :
      (query : String) → IsToolError (wa_search_contacts B query (pos 0) s)
  unfolding wa_search_contacts map_err Query.search_contacts validate_limit
  search_contacts-IsToolError query = elim (Bool-cases (is_blank query)) [
    | inl blank ↦ rw blank (_, refl)
    | inr some_query ↦ rw some_query (_, refl)
  ]

  -- A call of wa_list_chats, wa_list_messages, wa_search_messages or wa_search_contacts that leaves
  -- the limit out, which is decoded as 0, fails with a tool error, whatever its other inputs are and
  -- whatever the store holds.
  pub limit_omitted-IsToolError :
      (before chat_jid query : String) (include_archived : Bool)
      → IsToolError (wa_list_chats B parse_time before (pos 0) include_archived s)
        × IsToolError (wa_list_messages B parse_time chat_jid before (pos 0) s)
        × IsToolError (wa_search_messages B query (pos 0) s)
        × IsToolError (wa_search_contacts B query (pos 0) s)
  limit_omitted-IsToolError before chat_jid query include_archived = (
    list_chats-IsToolError before include_archived,
    list_messages-IsToolError chat_jid before,
    search_messages-IsToolError query,
    search_contacts-IsToolError query,
  )

module _ {B : Bundle} {W : WaClient} {D : MediaDisk} (w : World B W D) where
  -- A phone number without a leading plus sign, the form that wa_login_phone describes, is never
  -- paired: the tool fails with the text internal error, and nothing is changed.
  pub wa_login_phone-plain :
      (phone : String) (arrives : Bool) (first : ℕ) (rest : List ℕ)
      → codes phone ≡ first ∷ rest
      → first ≢ b'+'
      → wa_login_phone phone arrives w ≡ (failed (handler_error "internal error"), w)
  unfolding wa_login_phone Groups.login_phone map_err IsE164
  wa_login_phone-plain phone arrives first rest starts no_plus =
      elim (Bool-cases (is_valid_phone_number phone)) [
        | inl valid ↦
            let (ds, e, _, _, _) = (is_valid_phone_number_iff phone).0 valid in
            absurd (no_plus (ground (arith, starts, e)))
        | inr invalid ↦ rw invalid refl
      ]
