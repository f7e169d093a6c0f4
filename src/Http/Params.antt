-- ===== src/Http/Params.antt =====
-- internal/transport/http/chats.go: the query parameters of the lists. An absent parameter is the
-- empty text. `parse_time` is `time.Parse(time.RFC3339, …)`.
use whatsmeow_api.Prelude.{
  String, Bool, true, false, ◌||◌, Option, none, some, ltb, ◌==◌, if◌then◌else◌, ℤ, pos, negsuc,
}
use whatsmeow_api.Text.{codes}
use whatsmeow_api.Time.{Time, zero_time}
use whatsmeow_api.Http.Events.{parse_int}

-- A parameter's value, or what is wrong with it.
pub data Param {ℓ} (A : Type ℓ) : Type ℓ where
  value : A → Param A
  invalid : String → Param A

abbrev in_range : Option ℤ → Param ℤ
in_range none = invalid "limit must be an integer"
in_range (some (negsuc n)) = invalid "limit must be in [1, 100]"
in_range (some (pos n)) =
    if ltb n 1 || ltb 100 n then invalid "limit must be in [1, 100]" else value (pos n)

unfoldable pub parse_limit : String → Param ℤ
unfolding parse_int
parse_limit q = if q == "" then value (pos 50) else in_range (parse_int (codes q))

abbrev at_time : Option Time → Param Time
at_time none = invalid "before must be RFC 3339 timestamp"
at_time (some t) = value t

unfoldable pub parse_before : (String → Option Time) → String → Param Time
parse_before parse_time q = if q == "" then value zero_time else at_time (parse_time q)

-- `strconv.ParseBool`
abbrev is_true : String → Bool
is_true q = q == "1" || q == "t" || q == "T" || q == "true" || q == "TRUE" || q == "True"

abbrev is_false : String → Bool
is_false q = q == "0" || q == "f" || q == "F" || q == "false" || q == "FALSE" || q == "False"

unfoldable pub parse_include_archived : String → Param Bool
parse_include_archived q =
    if q == ""
    then value false
    else if is_true q
    then value true
    else if is_false q
    then value false
    else invalid "include_archived must be true or false"
