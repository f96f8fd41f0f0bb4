-- ===== src/Gateway/Translator/Responses/Items.antt =====
-- src/gateway/translator.rs: what becomes of the outputs of tools in a request of the responses
-- interface.
use aqua_rust.Common.{String, none, some, List, [], ◌∷◌, ◌++◌, ◌≡◌, ap, arith}
use aqua_rust.Common.Json.{Value, arr, get, and_str, elements-items}
use aqua_rust.Gateway.Translator.Responses.{item_messages, items_messages, input_messages}

-- An item of the type of a tool's output, with no role and no text.
abbrev pub IsToolOutput : Value → Type 0
IsToolOutput item =
    (and_str (get "role" item) ≡ none)
    × (and_str (get "type" item) ≡ some "function_call_output")
    × (get "text" item ≡ none)

module _ (print : Value → String) where
  items_messages-drop :
      (xs ys : List Value) (item : Value)
      → IsToolOutput item
      → items_messages print (xs ++ (item ∷ ys)) ≡ items_messages print (xs ++ ys)
  unfolding items_messages
  items_messages-drop [] ys item h = ground (arith, h.0, h.1, h.2)
  items_messages-drop (x ∷ xs) ys item h =
      ap (λ zs. item_messages print x ++ zs) (items_messages-drop xs ys item h)

  -- An item of the type `function_call_output` that has no role and no text, which is the form in which
  -- a client returns what a tool has given, leaves no trace in the translated messages.
  pub tool_output_dropped :
      (xs ys : List Value) (item : Value)
      → IsToolOutput item
      → input_messages print (some (arr (xs ++ (item ∷ ys))))
        ≡ input_messages print (some (arr (xs ++ ys)))
  unfolding input_messages
  tool_output_dropped xs ys item h =
      rw (elements-items (xs ++ (item ∷ ys)), elements-items (xs ++ ys))
        (items_messages-drop xs ys item h)
