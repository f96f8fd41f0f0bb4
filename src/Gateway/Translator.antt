-- ===== src/Gateway/Translator.antt =====
-- src/gateway/translator.rs: the protocols and the entries of the translation. The headers are a map
-- by their names; the printing and parsing of JSON and the random identifiers are arguments.
pub mod Anthropic
pub mod Gemini
pub mod Responses
pub mod Entries
mod Tests
use aqua_rust.Common.{
  ℕ, String, true, false, Option, none, some, List, [], ◌∷◌, Result, ok, Map, lookup, unwrap_or,
  str_contains, if◌then◌else◌, ◌||◌,
}
use aqua_rust.Common.Json.{Value}
use aqua_rust.Common.Texts.{remove_all, remove_from, take_chars, drop_chars}
use Prim.Native.Char.{code}
use Anthropic.{anthropic_to_openai}
use Anthropic.Answer.{openai_response_to_anthropic}
use Gemini.{gemini_to_openai, openai_response_to_gemini}
use Responses.{responses_to_openai, openai_response_to_responses}
use aqua_rust.Common.{◌==◌}

pub data Protocol : Type 0 where
  open_ai anthropic gemini responses embeddings : Protocol

unfoldable pub detect_protocol : String → Protocol
detect_protocol path =
    if str_contains path "/messages" || str_contains path "count_tokens"
    then anthropic
    else if str_contains path "generateContent"
    then gemini
    else if str_contains path "/responses"
    then responses
    else if str_contains path "/embeddings"
    then embeddings
    else open_ai

abbrev pub or_header : String → Map String → Option String → Option String
or_header k headers none = lookup k headers
or_header k headers (some v) = some v

unfoldable pub extract_auth_key : Protocol → Map String → String
extract_auth_key anthropic headers = unwrap_or (lookup "x-api-key" headers) ""
extract_auth_key gemini headers =
    unwrap_or (or_header "authorization" headers (lookup "x-goog-api-key" headers)) ""
extract_auth_key open_ai headers = unwrap_or (lookup "authorization" headers) ""
extract_auth_key responses headers = unwrap_or (lookup "authorization" headers) ""
extract_auth_key embeddings headers = unwrap_or (lookup "authorization" headers) ""

-- `rsplit('/').next()`: what stands behind the last slash, or the whole text. `behind` is that of the
-- characters so far.
unfoldable pub last_segment : String → String → String
last_segment behind String.[] = behind
last_segment behind (String.◌∷◌ c s) = last_segment (if code c == b'/' then s else behind) s

unfoldable pub extract_model_from_path : String → String
unfolding last_segment remove_from
extract_model_from_path path = remove_all ":generateContent" (last_segment path path)

module _ (print : Value → String) (parse : String → Option Value) (call_id : ℕ → ℕ → String) where
  unfoldable pub translate_request : Protocol → Value → Result String Value
  translate_request anthropic body = anthropic_to_openai print call_id body
  translate_request gemini body = gemini_to_openai body
  translate_request responses body = responses_to_openai print body
  translate_request open_ai body = ok body
  translate_request embeddings body = ok body

  unfoldable pub translate_response : Protocol → Value → String → Result String Value
  translate_response anthropic body model = openai_response_to_anthropic parse body model
  translate_response gemini body model = openai_response_to_gemini body model
  translate_response responses body model = openai_response_to_responses body model
  translate_response open_ai body model = ok body
  translate_response embeddings body model = ok body
