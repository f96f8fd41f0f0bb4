-- ===== src/Gateway/Translator/Anthropic.antt =====
-- src/gateway/translator.rs, the Anthropic protocol: requests to OpenAI's chat completions. The
-- answers back are in Answer. The printing of JSON and the random identifiers are arguments.
pub mod Answer
pub mod Refuses
pub mod Roles
pub mod Settings
pub mod ToolUse
use aqua_rust.Common.{
  ℕ, zero, suc, ◌+◌, String, Bool, true, false, not, Option, none, some, List, [], ◌∷◌, ◌++◌, map,
  Result, ok, err, ◌>>=◌, filter, is_empty, if◌then◌else◌, is_some,
}
use aqua_rust.Common.Json.{
  Value, null, bool, number, string, array, object, elements, arr, obj, fields, nat, get, and_get,
  or_value, index, put, as_str, and_str, as_array, and_array, or_empty, or_text, is_object, is_null,
  is_text, filter_map,
}
use aqua_rust.Common.Texts.{join}
use text.Mathlib.Text.{◌==◌ as str_eq}

-- A `Some(Value::Array)` or `Some(Value::String)` of `system`.
unfoldable pub system_of : Option Value → Option Value
unfolding join
system_of none = none
system_of (some (string s)) = some (string s)
system_of (some (array vs)) =
    let texts = filter_map (get "text") (elements vs) in
    if is_empty texts then none else some (string (join "\n" (filter_map as_str texts)))
system_of (some null) = none
system_of (some (bool b)) = none
system_of (some (number n)) = none
system_of (some (object fs)) = none

-- The caller has tested that the body is an object.
unfoldable pub extract_anthropic_system : Value → Option Value
unfolding system_of
extract_anthropic_system body = system_of (get "system" body)

abbrev pub has_type : String → Value → Bool
has_type t c = is_text t (and_str (get "type" c))

-- A message with a role and a content.
abbrev pub message : String → Value → Value
message role content = obj (("role", string role) ∷ ("content", content) ∷ [])

abbrev pub text_of : Value → Option String
text_of c = and_str (get "text" c)

-- A `tool_use` block, with an identifier that was drawn for it.
abbrev pub tool_call : (Value → String) → String → Value → Value
tool_call print drawn c = obj (
    ("id", or_value (string drawn) (get "id" c))
    ∷ ("type", string "function")
    ∷ (
      "function",
      obj (
          ("name", or_value null (get "name" c))
          ∷ ("arguments", string (print (or_value (obj []) (get "input" c))))
          ∷ []),
    )
    ∷ [])

module _ (print : Value → String) (call_id : ℕ → ℕ → String) where
  -- The blocks of message `m`, from its `n`-th on.
  unfoldable pub tool_calls : ℕ → ℕ → List Value → List Value
  tool_calls m n [] = []
  tool_calls m n (c ∷ cs) = tool_call print (call_id m n) c ∷ tool_calls m (suc n) cs

  unfoldable pub with_tool_calls : ℕ → Value → List Value → Value
  unfolding tool_calls join
  with_tool_calls m content blocks =
      let calls = tool_calls m 0 (filter (has_type "tool_use") blocks) in
      let texts = filter_map text_of (filter (λ c. not (has_type "tool_use" c)) blocks) in
      if is_empty calls
      then message "assistant" content
      else put "content" (string (join "" texts))
          (put "tool_calls" (arr calls) (message "assistant" content))

  unfoldable pub assistant_message : ℕ → Value → Value
  unfolding with_tool_calls
  assistant_message m content = elim (as_array content) [
    | none ↦ message "assistant" content
    | some blocks ↦ with_tool_calls m content blocks
  ]

abbrev pub tool_message : Value → Value
tool_message r = obj (
    ("role", string "tool")
    ∷ ("tool_call_id", or_value null (get "tool_use_id" r))
    ∷ ("content", or_value (string "") (get "content" r))
    ∷ [])

abbrev pub without_results : List Value → Value
without_results blocks =
    let rest = filter (λ c. not (has_type "tool_result" c)) blocks in
    if is_empty rest then string "" else arr rest

-- The messages of a user's turn: its tool results, and then the rest.
unfoldable pub user_messages : Value → List Value
user_messages content =
    let blocks = or_empty (as_array content) in
    let results = filter (has_type "tool_result") blocks in
    if is_empty results
    then message "user" content ∷ []
    else map tool_message results ++ (message "user" (without_results blocks) ∷ [])

abbrev pub content_of : Value → Value
content_of m = or_value (string "") (get "content" m)

module _ (print : Value → String) (call_id : ℕ → ℕ → String) where
  abbrev pub turn : ℕ → String → Value → List Value
  turn m role content =
      if str_eq role "assistant"
      then assistant_message print call_id m content ∷ []
      else if str_eq role "user"
      then user_messages content
      else message role content ∷ []

  -- The loop over the messages, from the `m`-th on.
  unfoldable pub read_messages : ℕ → List Value → Result String (List Value)
  unfolding assistant_message user_messages
  read_messages m [] = ok []
  read_messages m (v ∷ vs) = elim (and_str (get "role" v)) [
    | none ↦ err "anthropic: role required"
    | some role ↦ read_messages (suc m) vs >>= λ rest. ok (turn m role (content_of v) ++ rest)
  ]

-- `if let Some(v) = from.get(k) { out[j] = v.clone(); }`.
abbrev pub forward : String → String → Value → Value → Value
forward k j from out = elim (get k from) [ none ↦ out | some v ↦ put j v out ]

abbrev pub tool : Value → Value
tool t = obj (
    ("type", string "function")
    ∷ (
      "function",
      obj (
          ("name", or_value null (get "name" t))
          ∷ ("description", or_value null (get "description" t))
          ∷ ("parameters", or_value null (get "input_schema" t))
          ∷ []),
    )
    ∷ [])

abbrev pub put_tools : Value → Value → Value
put_tools body out = elim (get "tools" body) [
  | none ↦ out
  | some tools ↦ put "tools" (arr (map tool (or_empty (as_array tools)))) out
]

-- The request's model, and its messages.
abbrev pub request : Value → List Value → Value
request body messages =
    obj
      (("model", or_value (string "default") (get "model" body)) ∷ ("messages", arr messages) ∷ [])

abbrev pub system_messages : Value → List Value
system_messages body = elim (extract_anthropic_system body) [
  | none ↦ []
  | some sys ↦ obj (("role", string "system") ∷ ("content", sys) ∷ []) ∷ []
]

unfoldable pub anthropic_settings : Value → Value → Value
anthropic_settings body out = put_tools body (
    forward "stream" "stream" body (
      forward "top_p" "top_p" body
        (forward "temperature" "temperature" body (forward "max_tokens" "max_tokens" body out))))

unfoldable pub anthropic_to_openai :
    (Value → String) → (ℕ → ℕ → String) → Value → Result String Value
unfolding extract_anthropic_system read_messages anthropic_settings
anthropic_to_openai print call_id body =
    if is_object body
    then elim (and_array (get "messages" body)) [
      | none ↦ err "anthropic: messages required"
      | some input ↦ read_messages print call_id 0 input >>= λ messages.
          ok (anthropic_settings body (request body (system_messages body ++ messages)))
    ]
    else err "anthropic: body must be object"
