-- ===== src/Http/Auth.antt =====
-- internal/transport/http/auth.go: the bearer token. Texts are taken as code points. No letter of the
-- scheme has a case variant outside ASCII, so `strings.EqualFold` compares it up to ASCII case.
pub mod Admission
use whatsmeow_api.Prelude.{
  ℕ, ◌+◌, String, Bool, ◌&&◌, Option, none, some, List, [], ◌∷◌, len, leb, eqb, ◌==◌, if◌then◌else◌,
}
use whatsmeow_api.Text.{codes, codes_eq, trim_left}
use whatsmeow_api.Http.Response.{Response, problem}

abbrev pub to_lower : ℕ → ℕ
to_lower c = if leb b'A' c && leb c b'Z' then c + 32 else c

-- What follows a prefix, which is compared up to case and given in lower case.
unfoldable pub after_prefix : List ℕ → List ℕ → Option (List ℕ)
after_prefix [] s = some s
after_prefix (p ∷ ps) [] = none
after_prefix (p ∷ ps) (c ∷ s) =
    let rest = after_prefix ps s in if eqb (to_lower c) p then rest else none

abbrev pub nonempty : List ℕ → Option (List ℕ)
nonempty [] = none
nonempty (c ∷ cs) = some (c ∷ cs)

abbrev pub token_of : Option (List ℕ) → Option (List ℕ)
token_of none = none
token_of (some s) = nonempty (trim_left s)

abbrev pub scheme : List ℕ
scheme = codes "bearer "

unfoldable pub bearer_token : String → Option (List ℕ)
unfolding after_prefix
bearer_token h = if leb (len h) 7 then none else token_of (after_prefix scheme (codes h))

abbrev pub compared : String → Option (List ℕ) → Option Response
compared token none = some (problem 401 "auth.unauthorized" "missing bearer token")
compared token (some got) =
    if codes_eq got (codes token)
    then none
    else some (problem 401 "auth.unauthorized" "invalid bearer token")

-- The answer to a request with an Authorization header, or `none` where the next handler answers.
unfoldable pub require_bearer_token : String → String → Option Response
unfolding bearer_token
require_bearer_token token header =
    if token == "" then none else compared token (bearer_token header)
