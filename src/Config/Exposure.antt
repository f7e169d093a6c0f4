-- ===== src/Config/Exposure.antt =====
-- What a checked configuration lets through from outside.
use whatsmeow_api.Prelude.{
  ℕ, List, ◌≡◌, ap, String, Bool, false, Option, none, some, ◌==◌, Bool-cases, inl, inr,
}
use whatsmeow_api.Text.{codes, codes_eq, codes_eq_iff}
use whatsmeow_api.Config.{Config, validate}
use whatsmeow_api.Http.Auth.{require_bearer_token, bearer_token, compared}

problem_found : {A : Type 0} {a : A} → some a ≡ none → ⊥
problem_found e = absurd (cc)

module _ (is_loopback : String → Bool) (c : Config) where
  has_token : validate is_loopback c ≡ none → is_loopback c.bind ≡ false → (c.token == "") ≡ false
  unfolding validate
  has_token fine outside = elim (Bool-cases (c.token == "")) [
    | inl no_token ↦ absurd (problem_found (rw (outside, no_token) at fine))
    | inr token ↦ token
  ]

  -- If the check of the configuration finds nothing wrong and the daemon does not listen on a loopback
  -- address, then there is a token, and every request that passes carries it as its bearer token.
  pub validate-protected :
      validate is_loopback c ≡ none
      → is_loopback c.bind ≡ false
      → (header : String) → require_bearer_token c.token header ≡ none
      → ((c.token == "") ≡ false) × (bearer_token header ≡ some (codes c.token))
  unfolding require_bearer_token
  validate-protected fine outside header passed =
      let token = has_token fine outside in
      (token, carried (bearer_token header) (rw token at passed))
    where
      carried : (o : Option (List ℕ)) → compared c.token o ≡ none → o ≡ some (codes c.token)
      carried none h = absurd (problem_found h)
      carried (some got) h = elim (Bool-cases (codes_eq got (codes c.token))) [
        | inl same ↦ ap some ((codes_eq_iff got (codes c.token)).0 same)
        | inr other ↦ absurd (problem_found (rw other at h))
      ]
