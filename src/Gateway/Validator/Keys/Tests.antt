-- ===== src/Gateway/Validator/Keys/Tests.antt =====
-- The cleaning of keys at concrete keys.
use aqua_rust.Common.{
  String, some, ◌≡◌, refl, Map, [], ◌∷◌, lookup, string_discrete, str_contains, to_lowercase,
}
use aqua_rust.Common.Texts.{trim, trim_end, skip_while}
use aqua_rust.Gateway.Translator.{extract_auth_key, responses}
use aqua_rust.Gateway.Validator.Keys.{check_key, clean_and_validate_api_key, clean_chars}
use aqua_rust.Gateway.Validator.Keys.Bearer.{bearer_refused}

quoted : clean_and_validate_api_key "\"sk-abcdefgh\" " ≡ "sk-abcdefgh"
unfolding clean_and_validate_api_key clean_chars check_key trim trim_end skip_while str_contains
    to_lowercase string_discrete
quoted = refl

sample : clean_and_validate_api_key "sk-Test-abcdef" ≡ ""
unfolding clean_and_validate_api_key clean_chars check_key trim trim_end skip_while str_contains
    to_lowercase string_discrete
sample = refl

abbrev headers : Map String
headers = ("authorization", "Bearer sk-abcdefgh") ∷ []

has_header : lookup "authorization" headers ≡ some "Bearer sk-abcdefgh"
unfolding lookup string_discrete
has_header = refl

bearer_refused_example : clean_and_validate_api_key (extract_auth_key responses headers) ≡ ""
bearer_refused_example = bearer_refused headers "sk-abcdefgh" has_header
