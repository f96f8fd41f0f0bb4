-- ===== src/Gateway/Translator/Gemini.antt =====
-- src/gateway/translator.rs, the Gemini protocol: requests to OpenAI's chat completions, and the
-- answers back.
use aqua_rust.Common.{
  String, Option, none, some, List, [], ◌∷◌, ◌++◌, map, Result, ok, err, is_empty, if◌then◌else◌,
}
use aqua_rust.Common.Json.{
  Value, null, bool, number, string, array, object, elements, arr, obj, get, and_get, or_value,
  as_str, and_str, and_array, or_empty, or_text, is_object, filter_map,
}
use aqua_rust.Common.Texts.{join}
use aqua_rust.Gateway.Translator.Anthropic.{forward, message, text_of, request}
use aqua_rust.Gateway.Translator.Anthropic.Answer.{first_choice, answer_content, usage_count}
use Prim.Native.String.{◌++◌ as str_append}
use text.Mathlib.Text.{◌==◌ as str_eq}

unfoldable pub system_instruction : Value → List Value
unfolding join
system_instruction body =
    let parts = or_empty (and_array (and_get "parts" (get "systemInstruction" body))) in
    let texts = filter_map text_of parts in
    if is_empty texts then [] else message "system" (string (join "" texts)) ∷ []

-- The data of an inline image.
abbrev pub image_of : Value → Option Value
image_of p = elim (get "inlineData" p) [
  | none ↦ none
  | some inline ↦ some (or_value null (get "data" inline))
]

abbrev pub image_block : Value → Value
image_block img =
    let url = str_append "data:image/png;base64," (or_text "" (as_str img)) in
    obj (("type", string "image_url") ∷ ("image_url", obj (("url", string url) ∷ [])) ∷ [])

abbrev pub text_block : List String → List Value
text_block texts =
    if is_empty texts
    then []
    else obj (("type", string "text") ∷ ("text", string (join "" texts)) ∷ []) ∷ []

unfoldable pub part_content : List Value → Value
unfolding join
part_content parts =
    let texts = filter_map text_of parts in
    let images = filter_map image_of parts in
    if is_empty images
    then string (join "" texts)
    else arr (text_block texts ++ map image_block images)

abbrev pub content_role : Option String → String
content_role none = "user"
content_role (some r) = if str_eq r "model" then "assistant" else "user"

unfoldable pub content_message : Value → Value
unfolding part_content
content_message c =
    message (content_role (and_str (get "role" c)))
      (part_content (or_empty (and_array (get "parts" c))))

-- The settings, if there are any.
abbrev pub generation_config : Option Value → Value → Value
generation_config none out = out
generation_config (some gc) out = forward "topK" "top_k" gc (
    forward "topP" "top_p" gc
      (forward "temperature" "temperature" gc (forward "maxOutputTokens" "max_tokens" gc out)))

unfoldable pub gemini_to_openai : Value → Result String Value
unfolding system_instruction content_message
gemini_to_openai body =
    let contents = or_empty (and_array (get "contents" body)) in
    let messages = system_instruction body ++ map content_message contents in
    if is_object body
    then ok (generation_config (get "generationConfig" body) (request body messages))
    else err "gemini: body must be object"

abbrev pub text_part : Value → Value
text_part t = obj (("text", t) ∷ [])

-- The parts of an answer: its text, or the texts of its blocks.
unfoldable pub answer_parts : Value → List Value
answer_parts (string s) = text_part (string s) ∷ []
answer_parts (array vs) = map text_part (filter_map (get "text") (elements vs))
answer_parts null = []
answer_parts (bool b) = []
answer_parts (number n) = []
answer_parts (object fs) = []

abbrev pub usage_metadata : Option Value → Value
usage_metadata none = obj []
usage_metadata (some u) = obj (
    ("promptTokenCount", usage_count "prompt_tokens" (some u))
    ∷ ("candidatesTokenCount", usage_count "completion_tokens" (some u))
    ∷ ("totalTokenCount", usage_count "total_tokens" (some u))
    ∷ [])

unfoldable pub openai_response_to_gemini : Value → String → Result String Value
unfolding answer_parts
openai_response_to_gemini body model =
    let first = first_choice body in
    let finish = or_text "stop" (and_str (get "finish_reason" first)) in
    let reason = if str_eq finish "length" then "MAX_TOKENS" else "STOP" in
    if is_object body
    then ok (
        obj (
          (
            "candidates",
            arr (
                obj (
                  (
                    "content",
                    obj (
                        ("parts", arr (answer_parts (answer_content first)))
                        ∷ ("role", string "model")
                        ∷ []),
                  )
                  ∷ ("finishReason", string reason)
                  ∷ [])
                ∷ []),
          )
          ∷ ("usageMetadata", usage_metadata (get "usage" body))
          ∷ ("modelVersion", string model)
          ∷ []))
    else err "openai response must be object"
