-- ===== src/Gateway/Headers.antt =====
-- src/gateway/handler/public.rs: the address and the key that a request's headers name. The headers
-- are a map of their texts by their names in small letters.
pub mod Bearer
mod Tests
use aqua_rust.Common.{
  String, Bool, true, false, not, ◌||◌, Option, none, some, Map, lookup, unwrap_or, ◌==◌,
  if◌then◌else◌, str_is_empty,
}
use aqua_rust.Common.Texts.{starts_with, strip_prefix, trim}
use aqua_rust.Common.Json.{or_option}
use Prim.Native.Char.{code}

abbrev pub is_private_ip : String → Bool
is_private_ip ip =
    starts_with ip "10."
    || starts_with ip "192.168."
    || starts_with ip "127."
    || starts_with ip "172."

-- `split(',').next()`.
unfoldable pub first_part : String → String
first_part String.[] = ""
first_part (String.◌∷◌ c s) = if code c == b',' then "" else String.◌∷◌ c (first_part s)

-- A trimmed text, if there is anything in it.
abbrev pub said : Option String → Option String
said none = none
said (some v) = if str_is_empty (trim v) then none else some (trim v)

abbrev pub forwarded : Option String → Option String
forwarded none = none
forwarded (some v) =
    let ip = trim (first_part v) in if str_is_empty ip || is_private_ip ip then none else some ip

unfoldable pub get_real_client_ip : Map String → String → String
unfolding first_part
get_real_client_ip headers fallback =
    unwrap_or
      (or_option (said (lookup "cf-connecting-ip" headers)) (
        or_option (forwarded (lookup "x-forwarded-for" headers))
          (said (lookup "x-real-ip" headers))))
      fallback

abbrev pub bearer_key : Option String → Option String
bearer_key none = none
bearer_key (some v) = some (unwrap_or (strip_prefix "Bearer " v) v)

unfoldable pub extract_api_key : Map String → String
extract_api_key headers =
    unwrap_or
      (or_option (bearer_key (lookup "authorization" headers))
        (or_option (lookup "x-api-key" headers) (lookup "x-goog-api-key" headers)))
      ""
