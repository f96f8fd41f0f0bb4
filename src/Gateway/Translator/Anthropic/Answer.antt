-- ===== src/Gateway/Translator/Anthropic/Answer.antt =====
-- src/gateway/translator.rs, the Anthropic protocol: an answer of OpenAI's as one of Anthropic's. The
-- parsing of JSON is an argument.
use aqua_rust.Common.{
  String, Option, none, some, List, [], ◌∷◌, ◌++◌, map, Result, ok, err, if◌then◌else◌,
}
use aqua_rust.Common.Json.{
  Value, null, string, arr, obj, nat, get, and_get, or_value, index, put, as_str, and_str,
  and_array, or_empty, or_text, is_object, is_null,
}
use text.Mathlib.Text.{◌==◌ as str_eq}

-- The answer's first choice.
abbrev pub first_choice : Value → Value
first_choice body = elim (or_empty (and_array (get "choices" body))) [ [] ↦ null | v ∷ vs ↦ v ]

abbrev pub answer_content : Value → Value
answer_content first = or_value (string "") (and_get "content" (get "message" first))

-- `tc.as_array()`, of the calls of the answer's message.
abbrev pub answer_calls : Value → List Value
answer_calls first = or_empty (and_array (and_get "tool_calls" (get "message" first)))

module _ (parse : String → Option Value) where
  -- The arguments of a call, parsed; an absent text is read as `{}`.
  abbrev pub arguments_of : Option Value → Value
  arguments_of none = obj []
  arguments_of (some a) = or_value (obj []) (parse (or_text "{}" (as_str a)))

  abbrev pub tool_use : Value → Value
  tool_use t = obj (
      ("type", string "tool_use")
      ∷ ("id", or_value null (get "id" t))
      ∷ ("name", or_value null (and_get "name" (get "function" t)))
      ∷ ("input", arguments_of (and_get "arguments" (get "function" t)))
      ∷ [])

  unfoldable pub content_blocks : Value → List Value
  content_blocks first =
      let content = answer_content first in
      (if is_null content then [] else obj (("type", string "text") ∷ ("text", content) ∷ []) ∷ [])
      ++ map tool_use (answer_calls first)

unfoldable pub stop_reason : String → String
stop_reason finish =
    if str_eq finish "length"
    then "max_tokens"
    else if str_eq finish "tool_calls"
    then "tool_use"
    else if str_eq finish "function_call"
    then "tool_use"
    else "end_turn"

-- A count of the usage, 0 where it is absent.
abbrev pub usage_count : String → Option Value → Value
usage_count k usage = or_value (nat 0) (and_get k usage)

abbrev pub put_total : Option Value → Value → Value
put_total none out = out
put_total (some usage) out =
    put "usage" (put "total_tokens" (usage_count "total_tokens" (some usage)) (index out "usage"))
      out

-- The answer from the first choice, the usage and the identifier of OpenAI's.
unfoldable pub anthropic_answer :
    (String → Option Value) → Value → Option Value → Option Value → String → Value
unfolding content_blocks stop_reason
anthropic_answer parse first usage id model =
    let finish = or_text "end_turn" (and_str (get "finish_reason" first)) in
    put_total usage (
      obj (
        ("id", or_value (string "msg_rust") id)
        ∷ ("type", string "message")
        ∷ ("role", string "assistant")
        ∷ ("model", string model)
        ∷ ("content", arr (content_blocks parse first))
        ∷ ("stop_reason", string (stop_reason finish))
        ∷ (
          "usage",
          obj (
              ("input_tokens", usage_count "prompt_tokens" usage)
              ∷ ("output_tokens", usage_count "completion_tokens" usage)
              ∷ []),
        )
        ∷ []))

unfoldable pub openai_response_to_anthropic :
    (String → Option Value) → Value → String → Result String Value
unfolding anthropic_answer
openai_response_to_anthropic parse body model =
    if is_object body
    then ok (anthropic_answer parse (first_choice body) (get "usage" body) (get "id" body) model)
    else err "openai response must be object"
