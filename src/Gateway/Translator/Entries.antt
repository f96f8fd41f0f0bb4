-- ===== src/Gateway/Translator/Entries.antt =====
-- src/gateway/translator.rs: what the entries keep of a request, and which answers they refuse.
use aqua_rust.Common.{
  ℕ, String, true, false, Bool, Option, none, some, List, [], ◌∷◌, ◌++◌, map, Result, ok, err, ◌≡◌,
  refl, arith, if◌then◌else◌, Option-cases, Bool-cases, Result-cases, inl, inr, ◌↔◌, ◌||◌, ◌∙◌, ap,
}
use aqua_rust.Common.Json.{
  Value, null, string, arr, get, and_get, and_array, is_object, or_empty, obj, or_option, or_value,
}
use aqua_rust.Gateway.Translator.{
  Protocol, open_ai, anthropic, gemini, responses, embeddings, translate_request,
  translate_response,
}
use aqua_rust.Gateway.Translator.Anthropic.{
  anthropic_settings, anthropic_to_openai, forward, request, system_messages, read_messages,
}
use aqua_rust.Gateway.Translator.Anthropic.Answer.{
  openai_response_to_anthropic, anthropic_answer, first_choice,
}
use aqua_rust.Gateway.Translator.Anthropic.Settings.{
  get-anthropic_settings, get-forward, is_object-forward,
}
use aqua_rust.Gateway.Translator.Gemini.{
  gemini_to_openai, generation_config, openai_response_to_gemini, system_instruction,
  content_message,
}
use aqua_rust.Gateway.Translator.Responses.{
  responses_to_openai, openai_response_to_responses, input_messages, instructions,
  responses_settings,
}

-- Where each protocol has the model, the greatest number of tokens and the temperature.
abbrev pub asked_model : Protocol → Value → Option Value
asked_model open_ai body = get "model" body
asked_model embeddings body = get "model" body
asked_model anthropic body = some (or_value (string "default") (get "model" body))
asked_model gemini body = some (or_value (string "default") (get "model" body))
asked_model responses body = some (or_value (string "default") (get "model" body))

abbrev pub asked_tokens : Protocol → Value → Option Value
asked_tokens open_ai body = get "max_tokens" body
asked_tokens embeddings body = get "max_tokens" body
asked_tokens anthropic body = get "max_tokens" body
asked_tokens gemini body = and_get "maxOutputTokens" (get "generationConfig" body)
asked_tokens responses body = get "max_output_tokens" body

abbrev pub asked_temperature : Protocol → Value → Option Value
asked_temperature open_ai body = get "temperature" body
asked_temperature embeddings body = get "temperature" body
asked_temperature anthropic body = get "temperature" body
asked_temperature gemini body = and_get "temperature" (get "generationConfig" body)
asked_temperature responses body = get "temperature" body

abbrev Keeps : Protocol → Value → Value → Type 0
Keeps p body out =
    (get "model" out ≡ asked_model p body)
    × (get "max_tokens" out ≡ asked_tokens p body)
    × (get "temperature" out ≡ asked_temperature p body)

or_option-none : (o : Option Value) → or_option o none ≡ o
or_option-none none = refl
or_option-none (some v) = refl

anthropic-Keeps :
    (body : Value) (ms : List Value)
    → Keeps anthropic body (anthropic_settings body (request body ms))
anthropic-Keeps body ms =
    let r = request body ms in
    (
      get-anthropic_settings "model" body r refl refl,
      get-anthropic_settings "max_tokens" body r refl refl ∙ or_option-none _,
      get-anthropic_settings "temperature" body r refl refl ∙ or_option-none _,
    )

responses-Keeps :
    (body : Value) (ms : List Value)
    → Keeps responses body (responses_settings body (request body ms))
responses-Keeps body ms =
    let r = request body ms in
    let o1 = forward "max_output_tokens" "max_tokens" body r in
    let o2 = forward "temperature" "temperature" body o1 in
    let h1 = is_object-forward "max_output_tokens" "max_tokens" body r refl in
    let h2 = is_object-forward "temperature" "temperature" body o1 h1 in
    let at1 = λ (i : String). get-forward i "max_output_tokens" "max_tokens" body r refl in
    let at2 = λ (i : String). get-forward i "temperature" "temperature" body o1 h1 in
    let at3 = λ (i : String). get-forward i "stream" "stream" body o2 h2 in
    (
      at3 "model" ∙ (at2 "model" ∙ at1 "model"),
      at3 "max_tokens" ∙ (at2 "max_tokens" ∙ (at1 "max_tokens" ∙ or_option-none _)),
      at3 "temperature"
          ∙ (at2 "temperature" ∙ (ap (or_option _) (at1 "temperature") ∙ or_option-none _)),
    )

gemini_config :
    (config : Option Value) (body : Value) (ms : List Value)
    → let out = generation_config config (request body ms) in
      (get "model" out ≡ some (or_value (string "default") (get "model" body)))
      × (get "max_tokens" out ≡ and_get "maxOutputTokens" config)
      × (get "temperature" out ≡ and_get "temperature" config)
gemini_config none body ms = (refl, refl, refl)
gemini_config (some gc) body ms =
    let r = request body ms in
    let o1 = forward "maxOutputTokens" "max_tokens" gc r in
    let o2 = forward "temperature" "temperature" gc o1 in
    let o3 = forward "topP" "top_p" gc o2 in
    let h1 = is_object-forward "maxOutputTokens" "max_tokens" gc r refl in
    let h2 = is_object-forward "temperature" "temperature" gc o1 h1 in
    let h3 = is_object-forward "topP" "top_p" gc o2 h2 in
    let at1 = λ (i : String). get-forward i "maxOutputTokens" "max_tokens" gc r refl in
    let at2 = λ (i : String). get-forward i "temperature" "temperature" gc o1 h1 in
    let at3 = λ (i : String). get-forward i "topP" "top_p" gc o2 h2 in
    let at4 = λ (i : String). get-forward i "topK" "top_k" gc o3 h3 in
    (
      at4 "model" ∙ (at3 "model" ∙ (at2 "model" ∙ at1 "model")),
      at4 "max_tokens"
          ∙ (at3 "max_tokens" ∙ (at2 "max_tokens" ∙ (at1 "max_tokens" ∙ or_option-none _))),
      at4 "temperature"
          ∙ (at3 "temperature"
              ∙ (at2 "temperature" ∙ (ap (or_option _) (at1 "temperature") ∙ or_option-none _))),
    )

anthropic_shape :
    (print : Value → String) (call_id : ℕ → ℕ → String) (body out : Value)
    → anthropic_to_openai print call_id body ≡ ok out
    → (ms : List Value) × (out ≡ anthropic_settings body (request body ms))
unfolding anthropic_to_openai
anthropic_shape print call_id body out h = elim (Bool-cases (is_object body)) [
  | inr e ↦ absurd (ground (arith, e))
  | inl e ↦ elim (Option-cases (and_array (get "messages" body))) [
    | inl f ↦ absurd (ground (arith, e, f))
    | inr (vs, f) ↦ elim (Result-cases (read_messages print call_id 0 vs)) [
      | inl (x, g) ↦ absurd (ground (arith, e, f, g))
      | inr (ms, g) ↦ (system_messages body ++ ms, ground (arith, e, f, g))
    ]
  ]
]

if_ok_iff :
    (b : Bool) (x : Value) (m : String)
    → ((out : Value) × ((if b then ok x else err m) ≡ ok out)) ↔ (b ≡ true)
if_ok_iff true x m = (λ h. refl, λ h. (x, refl))
if_ok_iff false x m = (λ (out, h). cc, λ h. cc)

always_ok_iff :
    (x : Value) → ((out : Value) × (◌≡◌ {A = Result String Value} (ok x) (ok out))) ↔ (true ≡ true)
always_ok_iff x = (λ h. refl, λ h. (x, refl))

empty_answer :
    (parse : String → Option Value) (usage id : Option Value) (model : String)
    → let out = anthropic_answer parse null usage id model in
      (get "content" out
        ≡ some (arr (obj (("type", string "text") ∷ ("text", string "") ∷ []) ∷ [])))
      × (get "stop_reason" out ≡ some (string "end_turn"))
unfolding anthropic_answer
empty_answer parse none id model = (refl, refl)
empty_answer parse (some u) id model = (refl, refl)

abbrev pub passes : Protocol → Bool
passes open_ai = true
passes embeddings = true
passes anthropic = false
passes gemini = false
passes responses = false

module _ (print : Value → String) (parse : String → Option Value) (call_id : ℕ → ℕ → String) where
  -- A translated request asks for the greatest number of tokens and the temperature that the request
  -- asked for in the place of its protocol, and for the model of its field `model`, or for one named
  -- `default` where the protocol is another than OpenAI's and the field is absent.
  pub settings_kept :
      (p : Protocol) (body out : Value)
      → translate_request print parse call_id p body ≡ ok out
      → (get "model" out ≡ asked_model p body)
        × (get "max_tokens" out ≡ asked_tokens p body)
        × (get "temperature" out ≡ asked_temperature p body)
  unfolding translate_request
  settings_kept open_ai body out h = ground arith
  settings_kept embeddings body out h = ground arith
  settings_kept anthropic body out h =
      let (ms, e) = anthropic_shape print call_id body out h in rw e (anthropic-Keeps body ms)
  settings_kept gemini body out h =
      let contents = or_empty (and_array (get "contents" body)) in
      let ms = system_instruction body ++ map content_message contents in
      let e : out ≡ generation_config (get "generationConfig" body) (request body ms) =
        unfold gemini_to_openai in ground arith in
      rw e (gemini_config (get "generationConfig" body) body ms)
  settings_kept responses body out h =
      let ms = instructions print body ++ input_messages print (get "input" body) in
      let e : out ≡ responses_settings body (request body ms) =
        unfold responses_to_openai in ground arith in
      rw e (responses-Keeps body ms)

  -- An answer of the upstream is translated exactly when it is a JSON object or the protocol is
  -- OpenAI's own.
  pub translate_response_iff :
      (p : Protocol) (body : Value) (model : String)
      → ((out : Value) × (translate_response print parse call_id p body model ≡ ok out))
        ↔ ((passes p || is_object body) ≡ true)
  unfolding translate_response
  translate_response_iff open_ai body model = always_ok_iff body
  translate_response_iff embeddings body model = always_ok_iff body
  translate_response_iff anthropic body model =
      unfold openai_response_to_anthropic in if_ok_iff (is_object body) _ _
  translate_response_iff gemini body model =
      unfold openai_response_to_gemini in if_ok_iff (is_object body) _ _
  translate_response_iff responses body model =
      unfold openai_response_to_responses in if_ok_iff (is_object body) _ _

  -- An object without choices, such as the JSON of an error, is translated for Anthropic's protocol to
  -- an answer that has ended its turn with an empty text.
  pub error_becomes_answer :
      (body : Value) (model : String)
      → is_object body ≡ true
      → get "choices" body ≡ none
      → (out : Value) × (translate_response print parse call_id anthropic body model ≡ ok out)
        × (get "content" out
            ≡ some (arr (obj (("type", string "text") ∷ ("text", string "") ∷ []) ∷ [])))
        × (get "stop_reason" out ≡ some (string "end_turn"))
  unfolding translate_response openai_response_to_anthropic
  error_becomes_answer body model h n =
      let first : first_choice body ≡ null = ground (arith, n) in
      let (content, stop) = empty_answer parse (get "usage" body) (get "id" body) model in
      (
        anthropic_answer parse null (get "usage" body) (get "id" body) model,
        rw (h, first) refl,
        content,
        stop,
      )
