-- ===== src/Text.antt =====
-- The parts of Go's `strings` and `unicode` packages that the daemon calls. A Go string is a native
-- text: valid UTF-8, measured in bytes by `len` and in runes by `count`.
use Prim.Native.Char.{code}
use Prim.Native.String.{◌++◌}
use whatsmeow_api.Prelude.{
  ◌≡◌, ◌↔◌, refl, subst, eqb_iff, arith, ℕ, String, Bool, true, false, ◌&&◌, ◌||◌, List, [], ◌∷◌,
  leb, eqb, ltb, zero, suc, ◌+◌, ◌/◌, ◌%◌, if◌then◌else◌,
}

abbrev pub codes : String → List ℕ
codes String.[] = []
codes (String.◌∷◌ c s) = code c ∷ codes s

-- `unicode.IsSpace`.
unfoldable pub is_space : ℕ → Bool
is_space c =
    (leb 0x09 c && leb c 0x0d)
    || eqb c 0x20
    || eqb c 0x85
    || eqb c 0xa0
    || eqb c 0x1680
    || (leb 0x2000 c && leb c 0x200a)
    || eqb c 0x2028
    || eqb c 0x2029
    || eqb c 0x202f
    || eqb c 0x205f
    || eqb c 0x3000

abbrev pub all_space : List ℕ → Bool
all_space [] = true
all_space (c ∷ cs) = is_space c && all_space cs

-- `strings.TrimSpace(s) == ""`.
unfoldable pub is_blank : String → Bool
unfolding is_space
is_blank s = all_space (codes s)

-- Texts as code points, compared.
abbrev pub codes_eq : List ℕ → List ℕ → Bool
codes_eq [] [] = true
codes_eq [] (_ ∷ _) = false
codes_eq (_ ∷ _) [] = false
codes_eq (a ∷ s) (b ∷ t) = eqb a b && codes_eq s t

pub codes_eq_iff : (s t : List ℕ) → (codes_eq s t ≡ true) ↔ (s ≡ t)
codes_eq_iff s t = (sound s t, λ e. subst (λ u. codes_eq s u ≡ true) e (same s))
  where
    sound : (s t : List ℕ) → codes_eq s t ≡ true → s ≡ t
    sound [] [] h = refl
    sound [] (_ ∷ _) h = absurd (cc)
    sound (_ ∷ _) [] h = absurd (cc)
    sound (a ∷ s) (b ∷ t) h = ground (arith, sound s t, eqb_iff a b)

    same : (s : List ℕ) → codes_eq s s ≡ true
    same [] = refl
    same (a ∷ s) = ground (arith, same s)

-- `strings.HasPrefix(s, p)`.
abbrev pub has_prefix : List ℕ → List ℕ → Bool
has_prefix s [] = true
has_prefix [] (_ ∷ _) = false
has_prefix (a ∷ s) (b ∷ p) = eqb a b && has_prefix s p

-- `strings.HasSuffix(s, p)`: some tail of `s` is `p`.
abbrev pub has_suffix : List ℕ → List ℕ → Bool
has_suffix [] p = codes_eq [] p
has_suffix (a ∷ s) p = codes_eq (a ∷ s) p || has_suffix s p

-- `strings.TrimLeft(s, " ")`.
abbrev pub trim_left : List ℕ → List ℕ
trim_left [] = []
trim_left (c ∷ cs) = if eqb c 0x20 then trim_left cs else c ∷ cs

-- `strings.TrimSpace(s)`: leading space goes first, then trailing space.
abbrev trim_front : String → String
trim_front String.[] = String.[]
trim_front (String.◌∷◌ c s) =
    let rest = trim_front s in if is_space (code c) then rest else String.◌∷◌ c s

abbrev trim_back : String → String
trim_back String.[] = String.[]
trim_back (String.◌∷◌ c s) =
    if is_space (code c) && all_space (codes s) then String.[] else String.◌∷◌ c (trim_back s)

unfoldable pub trim_space : String → String
unfolding is_space
trim_space s = trim_back (trim_front s)

-- `a + b` on texts.
unfoldable pub concat : String → String → String
concat a b = a ++ b

abbrev digit : ℕ → String
digit d =
    if eqb d 0
    then "0"
    else if eqb d 1
    then "1"
    else if eqb d 2
    then "2"
    else if eqb d 3
    then "3"
    else if eqb d 4
    then "4"
    else if eqb d 5
    then "5"
    else if eqb d 6
    then "6"
    else if eqb d 7
    then "7"
    else if eqb d 8
    then "8"
    else "9"

abbrev digits : ℕ → ℕ → String
digits zero n = ""
digits (suc fuel) n =
    let front = digits fuel (n / 10) in if ltb n 10 then digit n else concat front (digit (n % 10))

-- `%d`: a number has fewer digits than it counts, and one more than that are enough.
unfoldable pub decimal : ℕ → String
unfolding concat
decimal n = digits (n + 1) n
