-- ===== src/Gateway/Validator/Keys/Bearer.antt =====
-- src/gateway/translator.rs and src/gateway/validator.rs: the key of a request to the interface of
-- responses.
use aqua_rust.Common.{
  ℕ, String, false, some, Map, lookup, unwrap_or, ◌≡◌, refl, ap, ◌∙◌, arith, Bool-cases, inl, inr,
}
use aqua_rust.Common.Texts.{starts_with, trim, trim_end, trim_front, skip_while}
use aqua_rust.Gateway.Translator.{extract_auth_key, responses}
use aqua_rust.Gateway.Validator.Keys.{all_hex, check_key, clean_and_validate_api_key, clean_chars}
use Prim.Native.Char.{code}
use Prim.Native.String.{◌++◌}
use text.Mathlib.TextEquality.{starts_with_iff}
use text.Mathlib.TextLemmas.{cons-append}

abbrev first_code : String → ℕ
first_code String.[] = 0
first_code (String.◌∷◌ c s) = code c

abbrev bear : String → String
bear t = String.◌∷◌ "B" (String.◌∷◌ "e" (String.◌∷◌ "a" (String.◌∷◌ "r" t)))

not_acu : (t : String) → starts_with (bear t) "acu_" ≡ false
not_acu t = elim (Bool-cases (starts_with (bear t) "acu_")) [
  | inr e ↦ e
  | inl e ↦
      let (s, h) = (starts_with_iff (bear t) "acu_").0 e in
      absurd (omega (arith, ap first_code (cons-append "a" "cu_" s), ap first_code h))
]

not_sk : (t : String) → starts_with (bear t) "sk-" ≡ false
not_sk t = elim (Bool-cases (starts_with (bear t) "sk-")) [
  | inr e ↦ e
  | inl e ↦
      let (s, h) = (starts_with_iff (bear t) "sk-").0 e in
      absurd (omega (arith, ap first_code (cons-append "s" "k-" s), ap first_code h))
]

check_key-bear : (t : String) → check_key (bear t) ≡ ""
unfolding check_key all_hex
check_key-bear t = ground (arith, not_acu t, not_sk t)

-- An `r` in front of a text that is trimmed.
trim_front_r : (t : String) → trim_front "r" t ≡ String.◌∷◌ "r" t
trim_front_r String.[] = refl
trim_front_r (String.◌∷◌ c t) = refl

bearer : (k : String) → "Bearer " ++ k ≡ bear ("er " ++ k)
bearer k =
    cons-append "B" "earer " k
    ∙ ap (λ s. String.◌∷◌ "B" s)
        (cons-append "e" "arer " k
          ∙ ap (λ s. String.◌∷◌ "e" s)
              (cons-append "a" "rer " k ∙ ap (λ s. String.◌∷◌ "a" s) (cons-append "r" "er " k)))

clean-bear : (t : String) → trim (clean_chars (bear t)) ≡ bear (trim_end (clean_chars t))
unfolding trim skip_while trim_end clean_chars
clean-bear t =
    let u = trim_end (clean_chars t) in
    ap (λ s. trim_front "B" (trim_front "e" (trim_front "a" s))) (trim_front_r u)

-- Whatever its key is, a request to the interface of responses that sends it as a bearer token, as
-- that interface does, has no key: the word stays in front of it and makes the rest worthless.
pub bearer_refused :
    (headers : Map String) (key : String)
    → lookup "authorization" headers ≡ some ("Bearer " ++ key)
    → clean_and_validate_api_key (extract_auth_key responses headers) ≡ ""
unfolding clean_and_validate_api_key extract_auth_key
bearer_refused headers key h =
    ap (λ o. check_key (trim (clean_chars (unwrap_or o "")))) h
    ∙ ap (λ s. check_key (trim (clean_chars s))) (bearer key)
    ∙ ap check_key (clean-bear ("er " ++ key))
    ∙ check_key-bear (trim_end (clean_chars ("er " ++ key)))
