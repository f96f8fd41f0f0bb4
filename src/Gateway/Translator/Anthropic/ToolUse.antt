-- ===== src/Gateway/Translator/Anthropic/ToolUse.antt =====
-- src/gateway/translator.rs: tool calls, from Anthropic's form to OpenAI's and back.
use aqua_rust.Common.{
  ℕ, suc, String, not, false, Option, some, List, [], ◌∷◌, map, ok, ◌≡◌, refl, ap, All, filter,
  is_empty,
}
use aqua_rust.Common.Json.{Value, null, string, arr, obj, get, or_value, filter_map, elements-items}
use aqua_rust.Common.Texts.{join}
use aqua_rust.Gateway.Translator.Anthropic.{
  assistant_message, has_type, text_of, tool_call, tool_calls, with_tool_calls,
}
use aqua_rust.Gateway.Translator.Anthropic.Answer.{
  content_blocks, openai_response_to_anthropic, tool_use,
}

abbrev pub input_of : Value → Value
input_of c = or_value (obj []) (get "input" c)

-- A tool use with what the two interfaces share.
abbrev pub plain_use : Value → Value
plain_use c = obj (
    ("type", string "tool_use")
    ∷ ("id", or_value null (get "id" c))
    ∷ ("name", or_value null (get "name" c))
    ∷ ("input", input_of c)
    ∷ [])

abbrev pub plain_text : List Value → Value
plain_text blocks =
    let texts = filter_map text_of (filter (λ c. not (has_type "tool_use" c)) blocks) in
    obj (("type", string "text") ∷ ("text", string (join "" texts)) ∷ [])

-- An answer that consists of one message.
abbrev pub answer : Value → Value
answer message = obj (("choices", arr (obj (("message", message) ∷ []) ∷ [])) ∷ [])

module _ (print : Value → String) (parse : String → Option Value) (call_id : ℕ → ℕ → String) where
  -- The use has an identifier, and its printed input is parsed as that input.
  abbrev pub IsUse : Value → Type 0
  IsUse c = ((v : Value) × (get "id" c ≡ some v)) × (parse (print (input_of c)) ≡ some (input_of c))

  tool_use-tool_call :
      (drawn : String) (c : Value)
      → IsUse c
      → tool_use parse (tool_call print drawn c) ≡ plain_use c
  tool_use-tool_call drawn c ((v, e), p) = rw (e, p)

  map-tool_use :
      (m n : ℕ) (cs : List Value)
      → All IsUse cs
      → map (tool_use parse) (tool_calls print call_id m n cs) ≡ map plain_use cs
  unfolding tool_calls
  map-tool_use m n [] h = refl
  map-tool_use m n (c ∷ cs) h =
      rw (tool_use-tool_call (call_id m n) c h.0, map-tool_use m (suc n) cs h.1)

  is_empty-tool_calls :
      (m n : ℕ) (cs : List Value)
      → is_empty cs ≡ false
      → is_empty (tool_calls print call_id m n cs) ≡ false
  unfolding tool_calls
  is_empty-tool_calls m n [] h = h
  is_empty-tool_calls m n (c ∷ cs) h = refl

  content_blocks-with_tool_calls :
      (m : ℕ) (content : Value) (blocks : List Value)
      → All IsUse (filter (has_type "tool_use") blocks)
      → is_empty (filter (has_type "tool_use") blocks) ≡ false
      → content_blocks parse
          (obj (("message", with_tool_calls print call_id m content blocks) ∷ []))
        ≡ plain_text blocks ∷ map plain_use (filter (has_type "tool_use") blocks)
  unfolding content_blocks with_tool_calls
  content_blocks-with_tool_calls m content blocks ids h =
      let uses = filter (has_type "tool_use") blocks in
      rw (is_empty-tool_calls m 0 uses h)
        (rw (elements-items (tool_calls print call_id m 0 uses), map-tool_use m 0 uses ids))

  -- A turn of Anthropic's assistant that uses tools, of which each use has an identifier and an input
  -- that is parsed as it was printed, comes back from its translation with the identifier, the name and
  -- the input of every use as they were, in order, behind one block with the text of its other blocks.
  pub tool_use_round_trip :
      (m : ℕ) (blocks : List Value) (model : String)
      → All IsUse (filter (has_type "tool_use") blocks)
      → is_empty (filter (has_type "tool_use") blocks) ≡ false
      → let message = assistant_message print call_id m (arr blocks) in
        (out : Value) × (openai_response_to_anthropic parse (answer message) model ≡ ok out)
        × (get "content" out
            ≡ some (arr (plain_text blocks ∷ map plain_use (filter (has_type "tool_use") blocks))))
  unfolding assistant_message openai_response_to_anthropic
  tool_use_round_trip m blocks model ids some_use =
      let lists = elements-items blocks in
      (
        _,
        refl,
        rw lists (
            ap (λ bs. some (arr bs))
              (content_blocks-with_tool_calls m (arr blocks) blocks ids some_use)),
      )
