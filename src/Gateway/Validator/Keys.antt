-- ===== src/Gateway/Validator/Keys.antt =====
-- src/gateway/validator.rs: the cleaning of an API key.
pub mod Bearer
mod Tests
use Prim.Native.Char.{Char, code}
use Prim.Native.String.{len}
use aqua_rust.Common.{
  ℕ, String, Bool, true, false, not, ◌&&◌, ◌||◌, ltb, leb, ◌==◌, if◌then◌else◌, str_contains,
  is_same, to_lowercase,
}
use aqua_rust.Common.Texts.{starts_with, trim}

abbrev pub is_dropped : ℕ → Bool
is_dropped c = ltb c 32 || (c == 127) || (c == b' ') || (c == 34) || (c == 39)

unfoldable pub clean_chars : String → String
clean_chars String.[] = ""
clean_chars (String.◌∷◌ c s) =
    if is_dropped (code c) then clean_chars s else String.◌∷◌ c (clean_chars s)

abbrev pub is_ascii_hexdigit : ℕ → Bool
is_ascii_hexdigit c = (leb 48 c && leb c 57) || (leb 65 c && leb c 70) || (leb 97 c && leb c 102)

unfoldable pub all_hex : String → Bool
all_hex String.[] = true
all_hex (String.◌∷◌ c s) = is_ascii_hexdigit (code c) && all_hex s

-- A key of the demonstrations.
abbrev pub is_sample : String → Bool
is_sample lower =
    str_contains lower "demo"
    || str_contains lower "test"
    || str_contains lower "example"
    || is_same lower "sk-demo"

unfoldable pub check_key : String → String
unfolding all_hex
check_key cleaned =
    if ltb (len cleaned) 10
    then ""
    else if is_sample (to_lowercase cleaned)
    then ""
    else if starts_with cleaned "acu_" || starts_with cleaned "sk-"
    then cleaned
    else if leb 32 (len cleaned) && all_hex cleaned
    then cleaned
    else ""

unfoldable pub clean_and_validate_api_key : String → String
unfolding clean_chars check_key
clean_and_validate_api_key raw = check_key (trim (clean_chars raw))
