-- ===== src/Http/Auth/Admission.antt =====
-- Which requests pass the token check.
use Prim.Native.String.len
use text.Mathlib.TextPositions.{len_utf8-pos}
use mathlib.Core.Logic.{◌↔◌}
use mathlib.Core.Option.{some-injective}
use whatsmeow_api.Prelude.{
  eqb_iff, eq_iff, ℕ, zero, suc, ◌+◌, ◌≤◌, ◌≡◌, refl, sym, ◌∙◌, ap, subst, String, false, Option,
  none, some, List, [], ◌∷◌, ◌++◌, map, length, length-append, len, leb, eqb, ◌==◌, arith,
  Bool-cases, inl, inr,
}
use whatsmeow_api.Text.{codes, codes_eq, codes_eq_iff, trim_left}
use whatsmeow_api.Http.Response.{Response}
use whatsmeow_api.Http.Auth.{
  to_lower, after_prefix, token_of, scheme, bearer_token, compared, nonempty, require_bearer_token,
}

abbrev pub spaces : ℕ → List ℕ
spaces zero = []
spaces (suc n) = 0x20 ∷ spaces n

-- The scheme in any case, any number of further spaces, and the token.
pub record Carries (token header : List ℕ) : Type 0 where
  pub word : List ℕ
  pub more : ℕ
  pub spelled : header ≡ word ++ (spaces more ++ token)
  pub is_scheme : map to_lower word ≡ scheme

after_prefix_sound :
    (p s rest : List ℕ)
    → after_prefix p s ≡ some rest
    → (word : List ℕ) × (s ≡ word ++ rest) × (map to_lower word ≡ p)
unfolding after_prefix
after_prefix_sound [] s rest h = ([], some-injective _ _ h, refl)
after_prefix_sound (p ∷ ps) [] rest h = absurd (cc)
after_prefix_sound (p ∷ ps) (c ∷ s) rest h = elim (Bool-cases (eqb (to_lower c) p)) [
  | inr other ↦ absurd (none_some (rw other at h))
  | inl same ↦
      let (word, e, l) = after_prefix_sound ps s rest (rw same at h) in
      (c ∷ word, ap (λ xs. c ∷ xs) e, cons_eq ((eqb_iff (to_lower c) p).0 same) l)
]
  where
    none_some : none ≡ some rest → ⊥
    none_some e = absurd (cc)

    cons_eq : {a b : ℕ} {xs ys : List ℕ} → a ≡ b → xs ≡ ys → a ∷ xs ≡ b ∷ ys
    cons_eq e l = rw (e, l) refl

after_prefix_complete :
    (word rest : List ℕ) → after_prefix (map to_lower word) (word ++ rest) ≡ some rest
unfolding after_prefix
after_prefix_complete [] rest = refl
after_prefix_complete (c ∷ word) rest =
    rw ((eqb_iff (to_lower c) (to_lower c)).1 refl) (after_prefix_complete word rest)

trim_left-split : (s : List ℕ) → (n : ℕ) × (s ≡ spaces n ++ trim_left s)
trim_left-split [] = (zero, refl)
trim_left-split (c ∷ cs) = elim (Bool-cases (eqb c 0x20)) [
  | inr other ↦ (zero, rw other refl)
  | inl space ↦
      let (n, e) = trim_left-split cs in
      (suc n, rw (space, (eqb_iff c 0x20).0 space) (ap (λ xs. 0x20 ∷ xs) e))
]

trim_left-spaces :
    (n c : ℕ) (cs : List ℕ) → eqb c 0x20 ≡ false → trim_left (spaces n ++ (c ∷ cs)) ≡ c ∷ cs
trim_left-spaces zero c cs h = rw h refl
trim_left-spaces (suc n) c cs h = trim_left-spaces n c cs h

-- A text has no fewer bytes than characters.
length-codes : (s : String) → length (codes s) ≤ len s
length-codes String.[] = omega arith
length-codes (String.◌∷◌ c s) = omega (arith, length-codes s, len.cons c s, (len_utf8-pos c).1)

length-to_lower : (s : List ℕ) → length (map to_lower s) ≡ length s
length-to_lower [] = refl
length-to_lower (c ∷ s) = omega (arith, length-to_lower s)

compared-nonempty :
    (token : String) (t : List ℕ) → compared token (nonempty t) ≡ none → t ≡ codes token
compared-nonempty token [] h = absurd (cc)
compared-nonempty token (a ∷ t) h = elim (Bool-cases (codes_eq (a ∷ t) (codes token))) [
  | inl same ↦ (codes_eq_iff (a ∷ t) (codes token)).0 same
  | inr other ↦ absurd (some_none (rw other at h))
]
  where
    some_none : {r : Response} → some r ≡ none → ⊥
    some_none e = absurd (cc)

module _ (token header : String) where
  admitted_sound :
      (o : Option (List ℕ))
      → after_prefix scheme (codes header) ≡ o
      → compared token (token_of o) ≡ none
      → Carries (codes token) (codes header)
  admitted_sound none e h = absurd (cc)
  admitted_sound (some rest) e h =
      let (word, at_word, same) = after_prefix_sound scheme (codes header) rest e in
      let (n, at_space) = trim_left-split rest in
      record {
        word = word;
        more = n;
        spelled =
            at_word
            ∙ ap (λ s. word ++ s)
                (at_space ∙ ap (λ s. spaces n ++ s) (compared-nonempty token (trim_left rest) h));
        is_scheme = same;
      }

  -- The scheme, the space after it and the token are more than seven bytes.
  long_enough :
      (c : ℕ) (cs : List ℕ)
      → codes token ≡ c ∷ cs
      → Carries (codes token) (codes header)
      → leb (len header) 7 ≡ false
  long_enough c cs spelled k =
      let word_length : length k.word ≡ 7 = sym (length-to_lower k.word) ∙ ap length k.is_scheme in
      let total : length (codes header)
          ≡ length k.word + (length (spaces k.more) + length (codes token)) =
        ap length k.spelled
        ∙ length-append k.word (spaces k.more ++ codes token)
        ∙ ap (λ n. length k.word + n) (length-append (spaces k.more) (codes token)) in
      let some_token : length (codes token) ≡ suc (length cs) = ap length spelled in
      not_leb (len header) (omega (arith, word_length, total, some_token, length-codes header))
    where
      not_leb : (n : ℕ) → 8 ≤ n → leb n 7 ≡ false
      not_leb n h = ground arith

  admitted_complete :
      (c : ℕ) (cs : List ℕ)
      → codes token ≡ c ∷ cs
      → eqb c 0x20 ≡ false
      → Carries (codes token) (codes header)
      → compared token (bearer_token header) ≡ none
  unfolding bearer_token
  admitted_complete c cs spelled solid k =
      let after : after_prefix scheme (codes header) ≡ some (spaces k.more ++ codes token) =
        ap (after_prefix scheme) k.spelled
        ∙ subst
            (λ p.
              after_prefix p (k.word ++ (spaces k.more ++ codes token))
              ≡ some (spaces k.more ++ codes token))
            k.is_scheme (after_prefix_complete k.word (spaces k.more ++ codes token)) in
      let trimmed : trim_left (spaces k.more ++ codes token) ≡ c ∷ cs =
        ap (λ t. trim_left (spaces k.more ++ t)) spelled ∙ trim_left-spaces k.more c cs solid in
      rw
        (
          long_enough c cs spelled k,
          after,
          trimmed,
          (codes_eq_iff (c ∷ cs) (codes token)).1 (sym spelled),
        )
        refl

  -- Where a token is configured that does not begin with a space, a request passes exactly if its
  -- Authorization header is the word Bearer in any case, a space, any further spaces, and the token.
  pub require_bearer_token_iff :
      (c : ℕ) (cs : List ℕ)
      → codes token ≡ c ∷ cs
      → eqb c 0x20 ≡ false
      → (require_bearer_token token header ≡ none) ↔ Carries (codes token) (codes header)
  unfolding require_bearer_token bearer_token
  require_bearer_token_iff c cs spelled solid = elim (Bool-cases (token == "")) [
    | inl empty ↦ absurd (empty_cons (ap codes ((eq_iff token "").0 empty)))
    | inr configured ↦ rw configured (passed, admitted_complete c cs spelled solid)
  ]
    where
      empty_cons : codes token ≡ [] → ⊥
      empty_cons e = no_cons (sym e ∙ spelled)
        where
          no_cons : [] ≡ c ∷ cs → ⊥
          no_cons q = absurd (cc)

      passed : compared token (bearer_token header) ≡ none → Carries (codes token) (codes header)
      passed h = elim (Bool-cases (leb (len header) 7)) [
        | inl short ↦ absurd (missing (rw short at h))
        | inr long ↦ admitted_sound (after_prefix scheme (codes header)) refl (rw long at h)
      ]
        where
          missing : {r : Response} → some r ≡ none → ⊥
          missing e = absurd (cc)
