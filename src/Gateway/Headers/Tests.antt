-- ===== src/Gateway/Headers/Tests.antt =====
-- Headers of a request behind two proxies.
use aqua_rust.Common.{String, Map, [], ◌∷◌, ◌≡◌, refl, lookup, string_discrete}
use aqua_rust.Common.Texts.{strip_prefix, trim, trim_end, skip_while}
use aqua_rust.Gateway.Headers.{extract_api_key, first_part, get_real_client_ip}

abbrev headers : Map String
headers = ("x-forwarded-for", " 8.8.8.8, 10.0.0.1") ∷ (("authorization", "Bearer sk-1") ∷ [])

address : get_real_client_ip headers "unknown" ≡ "8.8.8.8"
unfolding get_real_client_ip first_part lookup string_discrete trim trim_end skip_while
address = refl

-- Every address that begins with 172 is taken for a private one.
public_address : get_real_client_ip (("x-forwarded-for", "172.217.0.1") ∷ []) "unknown" ≡ "unknown"
unfolding get_real_client_ip first_part lookup string_discrete trim trim_end skip_while
public_address = refl

plain_key : extract_api_key headers ≡ "sk-1"
unfolding extract_api_key lookup string_discrete strip_prefix
plain_key = refl
