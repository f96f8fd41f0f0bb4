-- ===== src/Gateway/Translator/Tests.antt =====
-- Runs of the translation. The printer and the parser know one JSON value.
use aqua_rust.Common.{
  ℕ, String, true, Option, some, List, [], ◌∷◌, map, ok, err, ◌≡◌, refl, ◌↔◌, All, filter,
  str_contains, ◌++◌,
}
use aqua_rust.Common.Json.{Value, null, string, arr, obj, nat, get, and_array, is_object}
use aqua_rust.Gateway.Translator.{
  anthropic, gemini, detect_protocol, extract_model_from_path, translate_request,
}
use aqua_rust.Gateway.Translator.Anthropic.{anthropic_to_openai, assistant_message, has_type}
use aqua_rust.Gateway.Translator.Anthropic.Answer.{openai_response_to_anthropic}
use aqua_rust.Gateway.Translator.Anthropic.Refuses.{HasRole, anthropic_to_openai_iff}
use aqua_rust.Gateway.Translator.Anthropic.Roles.{
  anthropic_roles, messages_of, role_of, roles_for_all, system_roles,
}
use aqua_rust.Gateway.Translator.Anthropic.ToolUse.{
  answer, plain_text, plain_use, tool_use_round_trip,
}
use aqua_rust.Gateway.Translator.Entries.{
  asked_model, asked_temperature, asked_tokens, settings_kept,
}

abbrev city : Value
city = obj (("city", string "Oslo") ∷ [])

abbrev print : Value → String
print v = "{\"city\":\"Oslo\"}"

abbrev parse : String → Option Value
parse s = some city

abbrev call_id : ℕ → ℕ → String
call_id m n = "call_7"

abbrev blocks : List Value
blocks =
    obj (("type", string "text") ∷ ("text", string "Let me see.") ∷ [])
    ∷ obj (
        ("type", string "tool_use")
        ∷ ("id", string "tu_1")
        ∷ ("name", string "weather")
        ∷ ("input", city)
        ∷ [])
    ∷ []

abbrev asked : Value
asked = obj (("role", string "assistant") ∷ ("content", arr blocks) ∷ [])

abbrev answered : Value
answered = obj (
    ("role", string "user")
    ∷ (
      "content",
      arr (
          obj (
            ("type", string "tool_result")
            ∷ ("tool_use_id", string "tu_1")
            ∷ ("content", string "rain")
            ∷ [])
          ∷ obj (("type", string "text") ∷ ("text", string "And now?") ∷ [])
          ∷ []),
    )
    ∷ [])

abbrev body : Value
body = obj (
    ("system", string "Be brief.")
    ∷ ("messages", arr (asked ∷ answered ∷ []))
    ∷ ("max_tokens", nat 100)
    ∷ [])

abbrev translated : Value
translated = elim (anthropic_to_openai print call_id body) [ ok out ↦ out | err e ↦ null ]

body-translated : anthropic_to_openai print call_id body ≡ ok translated
unfolding anthropic_to_openai
body-translated = refl

four_messages :
    map role_of (messages_of translated)
    ≡ some "system" ∷ some "assistant" ∷ some "tool" ∷ some "user" ∷ []
unfolding anthropic_to_openai
four_messages = refl

gemini_path : detect_protocol "/v1beta/models/gemma:generateContent" ≡ gemini
unfolding detect_protocol str_contains
gemini_path = refl

gemini_model : extract_model_from_path "/v1beta/models/gemma:generateContent" ≡ "gemma"
unfolding extract_model_from_path
gemini_model = refl

anthropic_to_openai_iff_example :
    ((out : Value) × (anthropic_to_openai print call_id body ≡ ok out)) ↔ (
      (is_object body ≡ true)
      × ((ms : List Value) × (and_array (get "messages" body) ≡ some ms) × All HasRole ms))
anthropic_to_openai_iff_example = anthropic_to_openai_iff print call_id body

anthropic_roles_example :
    map role_of (messages_of translated) ≡ system_roles body ++ roles_for_all (messages_of body)
anthropic_roles_example = anthropic_roles print call_id body translated body-translated

tool_use_round_trip_example :
    (out : Value) × (openai_response_to_anthropic parse
        (answer (assistant_message print call_id 0 (arr blocks)))
        "m"
      ≡ ok out)
    × (get "content" out
        ≡ some (arr (plain_text blocks ∷ map plain_use (filter (has_type "tool_use") blocks))))
tool_use_round_trip_example =
    tool_use_round_trip print parse call_id 0 blocks "m" (((string "tu_1", refl), refl), tt) refl

settings_kept_example :
    (get "model" translated ≡ asked_model anthropic body)
    × (get "max_tokens" translated ≡ asked_tokens anthropic body)
    × (get "temperature" translated ≡ asked_temperature anthropic body)
settings_kept_example =
    settings_kept print parse call_id anthropic body translated
      (unfold translate_request in body-translated)

abbrev failure : Value
failure = obj (("error", obj (("message", string "Invalid API key") ∷ [])) ∷ [])

abbrev rain : Value
rain = obj (
    ("type", string "function_call_output")
    ∷ ("call_id", string "tu_1")
    ∷ ("output", string "rain")
    ∷ [])
