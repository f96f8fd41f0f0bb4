-- ===== src/Gateway/PromptCache/Key.antt =====
-- src/gateway/prompt_cache.rs: the key of a request. The printing of JSON and the hash are arguments.
pub mod Shared
use aqua_rust.Common.{
  String, Bool, true, false, not, ◌&&◌, ◌||◌, Option, none, some, List, [], ◌∷◌, is_some, ltb,
  if◌then◌else◌, All, ◌≡◌, refl, ap, ◌∙◌,
}
use aqua_rust.Common.Json.{
  Number, pos_int, neg_int, float, Value, bool, number, get, get-put, and_str, put, is_object,
}
use Prim.Native.String.{◌++◌}
use text.Mathlib.Text.{◌==◌ as str_eq}

-- `n > 0.0`.
abbrev pub is_positive : Number → Bool
is_positive (pos_int n) = ltb 0 n
is_positive (neg_int n) = false
is_positive (float negative m e d) = not negative && ltb 0 m

abbrev pub is_on : Option Value → Bool
is_on (some (bool b)) = b
is_on v = false

abbrev pub is_random : Option Value → Bool
is_random (some (number n)) = is_positive n
is_random v = false

module _ (print : Value → String) (hash_sha256 : String → String) where
  abbrev pub messages_text : Option Value → String
  messages_text none = ""
  messages_text (some v) = print v

  abbrev pub limit_text : Option Value → String
  limit_text none = ""
  limit_text (some v) = "|mt=" ++ print v

  abbrev pub key_text : String → Value → String
  key_text model body =
      (model ++ messages_text (get "messages" body)) ++ limit_text (get "max_tokens" body)

  -- The streams, the random answers and those with tools are not kept.
  abbrev pub is_uncached : Value → Bool
  is_uncached body =
      is_on (get "stream" body)
      || is_random (get "temperature" body)
      || (is_some (get "tools" body)
          || is_some (get "tool_calls" body)
          || is_some (get "functions" body))

  abbrev pub keyed : Option String → Value → Option String
  keyed none body = none
  keyed (some model) body =
      if is_uncached body then none else some ("v1:" ++ hash_sha256 (key_text model body))

  unfoldable pub build_key : Value → Option String
  build_key body = keyed (and_str (get "model" body)) body
