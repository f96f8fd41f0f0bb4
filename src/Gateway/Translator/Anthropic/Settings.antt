-- ===== src/Gateway/Translator/Anthropic/Settings.antt =====
-- src/gateway/translator.rs: the fields that a translation copies from a request.
use aqua_rust.Common.{
  String, true, false, Option, ◌≡◌, refl, arith, if◌then◌else◌, Option-cases, inl, inr, ◌∙◌, map,
}
use aqua_rust.Common.Json.{
  Value, arr, get, is_object, or_option, get-put, is_object-put, or_empty, as_array,
}
use text.Mathlib.Text.{◌==◌ as str_eq}
use aqua_rust.Gateway.Translator.Anthropic.{anthropic_settings, forward, put_tools, tool}

pub get-forward :
    (i k j : String) (from out : Value)
    → is_object out ≡ true
    → get i (forward k j from out)
      ≡ (if str_eq j i then or_option (get k from) (get i out) else get i out)
get-forward i k j from out h = elim (Option-cases (get k from)) [
  | inl e ↦ ground (arith, e)
  | inr (v, e) ↦ ground (arith, e, get-put j i v out h)
]

pub is_object-forward :
    (k j : String) (from out : Value)
    → is_object out ≡ true
    → is_object (forward k j from out) ≡ true
is_object-forward k j from out h = elim (Option-cases (get k from)) [
  | inl e ↦ ground (arith, e)
  | inr (v, e) ↦ ground (arith, e, is_object-put j v out h)
]

get-put_tools :
    (i : String) (body out : Value)
    → is_object out ≡ true
    → str_eq "tools" i ≡ false
    → get i (put_tools body out) ≡ get i out
get-put_tools i body out h n = elim (Option-cases (get "tools" body)) [
  | inl e ↦ ground (arith, e)
  | inr (v, e) ↦ ground (arith, e, get-put "tools" i (arr (map tool (or_empty (as_array v)))) out h)
]

-- Of two fields, that of the request if it is `k`.
abbrev pub copied : String → String → String → Value → Option Value → Option Value
copied i k j from rest = if str_eq j i then or_option (get k from) rest else rest

pub get-anthropic_settings :
    (i : String) (body out : Value)
    → is_object out ≡ true
    → str_eq "tools" i ≡ false
    → get i (anthropic_settings body out)
      ≡ copied i "stream" "stream" body (
          copied i "top_p" "top_p" body (
            copied i "temperature" "temperature" body
              (copied i "max_tokens" "max_tokens" body (get i out))))
unfolding anthropic_settings
get-anthropic_settings i body out h n =
    let o1 = forward "max_tokens" "max_tokens" body out in
    let o2 = forward "temperature" "temperature" body o1 in
    let o3 = forward "top_p" "top_p" body o2 in
    let o4 = forward "stream" "stream" body o3 in
    let h1 = is_object-forward "max_tokens" "max_tokens" body out h in
    let h2 = is_object-forward "temperature" "temperature" body o1 h1 in
    let h3 = is_object-forward "top_p" "top_p" body o2 h2 in
    let h4 = is_object-forward "stream" "stream" body o3 h3 in
    get-put_tools i body o4 h4 n
    ∙ rw
        (
          get-forward i "stream" "stream" body o3 h3,
          get-forward i "top_p" "top_p" body o2 h2,
          get-forward i "temperature" "temperature" body o1 h1,
          get-forward i "max_tokens" "max_tokens" body out h,
        )
        refl
