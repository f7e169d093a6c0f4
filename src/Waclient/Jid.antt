-- ===== src/Waclient/Jid.antt =====
-- internal/waclient/waclient.go: `IsValidPhoneNumber` and `ChatKindFromJID`.
use whatsmeow_api.Prelude.{
  ℕ, ◌≤◌, ◌≡◌, ◌↔◌, String, Bool, true, false, ◌&&◌, List, [], ◌∷◌, leb, eqb, length, arith, All,
  if◌then◌else◌,
}
use whatsmeow_api.Text.{codes, has_suffix}

is_digit : ℕ → Bool
is_digit c = leb b'0' c && leb c b'9'

all_digits : List ℕ → Bool
unfolding is_digit
all_digits [] = true
all_digits (c ∷ cs) = is_digit c && all_digits cs

abbrev matches : List ℕ → Bool
matches [] = false
matches (c ∷ cs) = eqb c b'+' && leb 6 (length cs) && leb (length cs) 15 && all_digits cs

-- `^\+[0-9]{6,15}$`
unfoldable pub is_valid_phone_number : String → Bool
unfolding all_digits
is_valid_phone_number s = matches (codes s)

unfoldable pub chat_kind_from_jid : String → String
chat_kind_from_jid jid =
    if has_suffix (codes jid) (codes "@s.whatsapp.net")
    then "user"
    else if has_suffix (codes jid) (codes "@g.us")
    then "group"
    else if has_suffix (codes jid) (codes "@broadcast")
    then "broadcast"
    else if has_suffix (codes jid) (codes "@newsletter")
    then "newsletter"
    else "unknown"

-- An E.164 number: a plus sign and six to fifteen digits.
unfoldable pub IsE164 : List ℕ → Type 0
IsE164 s =
    (ds : List ℕ) × (s ≡ b'+' ∷ ds)
    × (6 ≤ length ds)
    × (length ds ≤ 15)
    × All (λ c. (b'0' ≤ c) × (c ≤ b'9')) ds

all_digits_iff : (cs : List ℕ) → (all_digits cs ≡ true) ↔ All (λ c. (b'0' ≤ c) × (c ≤ b'9')) cs
unfolding all_digits
all_digits_iff [] = ground arith
all_digits_iff (c ∷ cs) = ground (arith, all_digits_iff cs)

matches_sound : (s : List ℕ) → matches s ≡ true → IsE164 s
unfolding IsE164
matches_sound [] h = absurd (cc)
matches_sound (c ∷ cs) h =
    (cs, ground arith, ground arith, ground arith, (all_digits_iff cs).0 (ground arith))

matches_complete : (s : List ℕ) → IsE164 s → matches s ≡ true
unfolding IsE164
matches_complete [] (ds, e, _, _, _) = absurd (cc)
matches_complete (c ∷ cs) (ds, e, low, high, digits) = ground (arith, (all_digits_iff ds).1 digits)

-- `IsValidPhoneNumber` accepts exactly a plus sign followed by six to fifteen digits.
pub is_valid_phone_number_iff : (s : String) → (is_valid_phone_number s ≡ true) ↔ IsE164 (codes s)
unfolding is_valid_phone_number
is_valid_phone_number_iff s = (matches_sound (codes s), matches_complete (codes s))
