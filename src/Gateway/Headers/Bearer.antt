-- ===== src/Gateway/Headers/Bearer.antt =====
-- src/gateway/handler/public.rs: a bearer token.
use aqua_rust.Common.{String, some, Map, lookup, unwrap_or, ◌≡◌, ap, ◌∙◌, if◌then◌else◌, none}
use aqua_rust.Common.Json.{or_option}
use aqua_rust.Common.Texts.{drop_chars, strip_prefix}
use aqua_rust.Gateway.Headers.{bearer_key, extract_api_key}
use Prim.Native.String.{◌++◌, count}
use text.Mathlib.TextLemmas.{cons-append, length-cons, nil-append}
use text.Mathlib.TextPositions.{starts_with-append}

drop_chars-append : (t s : String) → drop_chars (count t) (t ++ s) ≡ s
unfolding drop_chars
drop_chars-append String.[] s = nil-append s
drop_chars-append (String.◌∷◌ c t) s =
    ap (drop_chars (count (String.◌∷◌ c t))) (cons-append c t s)
    ∙ ap (λ n. drop_chars n (String.◌∷◌ c (t ++ s))) (length-cons c t)
    ∙ drop_chars-append t s

-- The key of a bearer token is what stands behind the word.
pub extract_api_key-bearer :
    (headers : Map String) (key : String)
    → lookup "authorization" headers ≡ some ("Bearer " ++ key)
    → extract_api_key headers ≡ key
unfolding extract_api_key strip_prefix
extract_api_key-bearer headers key h =
    let v : String = "Bearer " ++ key in
    let others = or_option (lookup "x-api-key" headers) (lookup "x-goog-api-key" headers) in
    ap (λ o. unwrap_or (or_option (bearer_key o) others) "") h
    ∙ ap (λ b. unwrap_or (if b then some (drop_chars (count "Bearer ") v) else none) v)
        (starts_with-append "Bearer " key)
    ∙ drop_chars-append "Bearer " key
