-- ===== src/Gateway/Translator/Responses.antt =====
-- src/gateway/translator.rs, the interface of OpenAI's responses: requests to chat completions, and
-- the answers back. The printing of JSON is an argument.
pub mod Items
use aqua_rust.Common.{
  String, true, false, Option, none, some, List, [], ◌∷◌, ◌++◌, map, Result, ok, err, if◌then◌else◌,
}
use aqua_rust.Common.Json.{
  Value, null, bool, number, string, array, object, elements, arr, obj, get, and_get, or_value,
  and_str, is_object,
}
use aqua_rust.Gateway.Translator.Anthropic.{forward, message, content_of, request}
use aqua_rust.Gateway.Translator.Anthropic.Answer.{first_choice, answer_content, answer_calls}
use text.Mathlib.Text.{◌==◌ as str_eq}

abbrev pub or_null : String → Value → Value
or_null k v = or_value null (get k v)

-- An item with a role.
abbrev pub role_message : String → Value → Value
role_message role item =
    if str_eq role "function_call_output"
    then obj (
        ("role", string "tool")
        ∷ ("tool_call_id", or_null "call_id" item)
        ∷ ("content", content_of item)
        ∷ [])
    else message role (content_of item)

abbrev pub responses_settings : Value → Value → Value
responses_settings body out =
    forward "stream" "stream" body
      (forward "temperature" "temperature" body (forward "max_output_tokens" "max_tokens" body out))

module _ (print : Value → String) where
  abbrev pub call_message : Value → Value
  call_message item = obj (
      ("role", string "assistant")
      ∷ ("content", string "")
      ∷ (
        "tool_calls",
        arr (
            obj (
              ("id", or_null "call_id" item)
              ∷ ("type", string "function")
              ∷ (
                "function",
                obj (
                    ("name", or_null "name" item)
                    ∷ ("arguments", string (print (or_null "arguments" item)))
                    ∷ []),
              )
              ∷ [])
            ∷ []),
      )
      ∷ [])

  -- An item with a type and no role.
  abbrev pub typed_messages : String → Value → List Value
  typed_messages ty item = elim (get "text" item) [
    | some text ↦ message "user" text ∷ []
    | none ↦ if str_eq ty "function_call" then call_message item ∷ [] else []
  ]

  unfoldable pub item_messages : Value → List Value
  item_messages item = elim (and_str (get "role" item)) [
    | some role ↦ role_message role item ∷ []
    | none ↦ elim (and_str (get "type" item)) [ none ↦ [] | some ty ↦ typed_messages ty item ]
  ]

  -- The loop over the items.
  unfoldable pub items_messages : List Value → List Value
  unfolding item_messages
  items_messages [] = []
  items_messages (item ∷ rest) = item_messages item ++ items_messages rest

  unfoldable pub input_messages : Option Value → List Value
  unfolding items_messages
  input_messages none = []
  input_messages (some (string s)) = message "user" (string s) ∷ []
  input_messages (some (array vs)) = items_messages (elements vs)
  input_messages (some null) = []
  input_messages (some (bool b)) = []
  input_messages (some (number n)) = []
  input_messages (some (object fs)) = []

  abbrev pub instructions : Value → List Value
  instructions body = elim (and_str (get "instructions" body)) [
    | none ↦ []
    | some inst ↦ message "system" (string inst) ∷ []
  ]

  unfoldable pub responses_to_openai : Value → Result String Value
  unfolding input_messages
  responses_to_openai body =
      let messages = instructions body ++ input_messages (get "input" body) in
      if is_object body
      then ok (
          forward "stream" "stream" body (
            forward "temperature" "temperature" body
              (forward "max_output_tokens" "max_tokens" body (request body messages))))
      else err "responses: body must be object"

abbrev pub text_output : Value → List Value
text_output (string s) =
    obj (
      ("type", string "message")
      ∷ ("role", string "assistant")
      ∷ ("content", arr (obj (("type", string "output_text") ∷ ("text", string s) ∷ []) ∷ []))
      ∷ [])
    ∷ []
text_output null = []
text_output (bool b) = []
text_output (number n) = []
text_output (array vs) = []
text_output (object fs) = []

abbrev pub function_call : Value → Value
function_call t = obj (
    ("type", string "function_call")
    ∷ ("id", or_null "id" t)
    ∷ ("name", or_value null (and_get "name" (get "function" t)))
    ∷ ("arguments", or_value null (and_get "arguments" (get "function" t)))
    ∷ [])

unfoldable pub openai_response_to_responses : Value → String → Result String Value
openai_response_to_responses body model =
    let first = first_choice body in
    let output = text_output (answer_content first) ++ map function_call (answer_calls first) in
    if is_object body
    then ok (
        obj (
          ("id", or_value (string "resp_rust") (get "id" body))
          ∷ ("object", string "response")
          ∷ ("model", string model)
          ∷ ("status", string "completed")
          ∷ ("output", arr output)
          ∷ ("usage", or_value (obj []) (get "usage" body))
          ∷ []))
    else err "openai response must be object"
