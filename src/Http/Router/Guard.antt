-- ===== src/Http/Router/Guard.antt =====
-- internal/transport/http/router.go: which requests reach a handler.
use mathlib.Core.Logic.{◌⊎◌}
use whatsmeow_api.Prelude.{
  ◌≡◌, refl, String, true, false, ℕ, eqb, Option, none, some, List, ◌∷◌, ◌==◌, Bool-cases, inl, inr,
}
use whatsmeow_api.Text.{codes, codes_eq}
use whatsmeow_api.Config.{Config}
use whatsmeow_api.Store.Bundle.{Bundle}
use whatsmeow_api.Waclient.Client.{WaClient}
use whatsmeow_api.Service.World.{MediaDisk, World}
use whatsmeow_api.Http.Response.{Response, problem}
use whatsmeow_api.Http.Auth.{require_bearer_token, bearer_token, compared}
use whatsmeow_api.Http.Auth.Admission.{Carries, require_bearer_token_iff}
use whatsmeow_api.Http.Router.{
  Routed, get_health, mount_mcp, whole, guarded, access, Around, handle, serve,
}

-- The two answers of the token's middleware.
abbrev Verdict : Option Response → Type 0
Verdict o = (o ≡ none) ⊎ ((why : String) × (o ≡ some (problem 401 "auth.unauthorized" why)))

compared-Verdict : (token : String) (got : Option (List ℕ)) → Verdict (compared token got)
compared-Verdict token none = inr ("missing bearer token", refl)
compared-Verdict token (some got) = elim (Bool-cases (codes_eq got (codes token))) [
  | inl same ↦ inl (rw same refl)
  | inr other ↦ inr ("invalid bearer token", rw other refl)
]

require_bearer_token-Verdict : (token header : String) → Verdict (require_bearer_token token header)
unfolding require_bearer_token
require_bearer_token-Verdict token header = elim (Bool-cases (token == "")) [
  | inl no_token ↦ inl (rw no_token refl)
  | inr some_token ↦ rw some_token (compared-Verdict token (bearer_token header))
]

access-guarded :
    (c : Config)
    → (m : Routed) → ¬ (m ≡ get_health)
    → (m ≡ mount_mcp → c.mcp_enabled ≡ true)
    → access c m ≡ guarded
unfolding access
access-guarded c get_health private mounted = absurd (private refl)
access-guarded c mount_mcp private mounted = rw (mounted refl) refl
access-guarded c _ private mounted = refl

module _ {B : Bundle} {W : WaClient} {D : MediaDisk} (around : Around B W D) (c : Config)
    (header : String) {k : ℕ} {ks : List ℕ} where
  -- With a token that does not start with a space, a request on any route other than the health check
  -- is answered by the route's handler if its Authorization header carries the token, and otherwise
  -- with status 401, and the store, WhatsApp and the files stay as they were. For the route of the MCP
  -- server this holds where that server is enabled.
  pub serve-guarded :
      codes c.token ≡ k ∷ ks
      → eqb k 0x20 ≡ false
      → (m : Routed) → ¬ (m ≡ get_health)
      → (m ≡ mount_mcp → c.mcp_enabled ≡ true)
      → (w : World B W D)
      → (Carries (codes c.token) (codes header) → serve around c header m w ≡ handle around m w)
        × (¬ Carries (codes c.token) (codes header)
            → (why : String) × (serve around c header m w
                ≡ (whole (problem 401 "auth.unauthorized" why), w)))
  unfolding serve
  serve-guarded token starts m private mounted w =
      let inside = access-guarded c m private mounted in
      let passes_iff = require_bearer_token_iff c.token header k ks token starts in
      (
        (λ carried. rw (inside, passes_iff.1 carried) refl),
        λ bare. elim (require_bearer_token-Verdict c.token header) [
          | inl passed ↦ absurd (bare (passes_iff.0 passed))
          | inr (why, refused) ↦ (why, rw (inside, refused) refl)
        ],
      )
