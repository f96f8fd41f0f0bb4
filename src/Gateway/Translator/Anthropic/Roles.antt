-- ===== src/Gateway/Translator/Anthropic/Roles.antt =====
-- src/gateway/translator.rs: which messages an Anthropic request becomes.
use aqua_rust.Common.{
  ℕ, suc, String, Option, none, some, List, [], ◌∷◌, ◌++◌, map, ok, ◌≡◌, refl, ap, sym, subst, ◌∙◌,
  filter, is_empty, is_some, if◌then◌else◌, arith, Option-cases, Result-cases, Bool-cases, inl, inr,
}
use aqua_rust.Common.Json.{
  Value, arr, get, and_str, and_array, as_array, or_empty, elements-items, is_object,
}
use aqua_rust.Gateway.Translator.Anthropic.{
  anthropic_to_openai, anthropic_settings, assistant_message, content_of, extract_anthropic_system,
  has_type, message, read_messages, request, system_messages, tool_message, turn, user_messages,
  with_tool_calls, without_results,
}
use aqua_rust.Gateway.Translator.Anthropic.Settings.{get-anthropic_settings}
use text.Mathlib.TextEquality.{eq_iff}
use text.Mathlib.Text.{◌==◌ as str_eq}

abbrev pub role_of : Value → Option String
role_of m = and_str (get "role" m)

abbrev pub messages_of : Value → List Value
messages_of out = or_empty (and_array (get "messages" out))

abbrev pub results_of : Value → List Value
results_of m = filter (has_type "tool_result") (or_empty (as_array (content_of m)))

-- The roles that a message becomes: a user's tool results stand before it.
abbrev pub roles_as : String → Value → List (Option String)
roles_as role m =
    if str_eq role "user"
    then map (λ r. some "tool") (results_of m) ++ (some "user" ∷ [])
    else some role ∷ []

abbrev pub roles_for : Value → List (Option String)
roles_for m = elim (role_of m) [ none ↦ [] | some role ↦ roles_as role m ]

abbrev pub roles_for_all : List Value → List (Option String)
roles_for_all [] = []
roles_for_all (m ∷ ms) = roles_for m ++ roles_for_all ms

abbrev pub system_roles : Value → List (Option String)
system_roles body = if is_some (extract_anthropic_system body) then some "system" ∷ [] else []

map-append {ℓ κ} :
    {A : Type ℓ} {B : Type κ} (f : A → B) (xs ys : List A) → map f (xs ++ ys) ≡ map f xs ++ map f ys
map-append f [] ys = refl
map-append f (x ∷ xs) ys = ap (λ zs. f x ∷ zs) (map-append f xs ys)

map-tool_message : (rs : List Value) → map role_of (map tool_message rs) ≡ map (λ r. some "tool") rs
map-tool_message [] = refl
map-tool_message (r ∷ rs) = ap (λ zs. some "tool" ∷ zs) (map-tool_message rs)

roles-results :
    (content rest : Value) (rs : List Value)
    → map role_of (
        if is_empty rs
        then message "user" content ∷ []
        else map tool_message rs ++ (message "user" rest ∷ []))
      ≡ map (λ r. some "tool") rs ++ (some "user" ∷ [])
roles-results content rest [] = refl
roles-results content rest (r ∷ rs) =
    map-append role_of (map tool_message (r ∷ rs)) (message "user" rest ∷ [])
    ∙ ap (λ zs. zs ++ (some "user" ∷ [])) (map-tool_message (r ∷ rs))

roles-user :
    (m : Value)
    → map role_of (user_messages (content_of m))
      ≡ map (λ r. some "tool") (results_of m) ++ (some "user" ∷ [])
unfolding user_messages
roles-user m =
    roles-results (content_of m) (without_results (or_empty (as_array (content_of m))))
      (results_of m)

roles_for_lem : (m : Value) (r : String) → role_of m ≡ some r → roles_for m ≡ roles_as r m
roles_for_lem m r e = ground (arith, e)

messages-settings :
    (body : Value) (ms : List Value) → messages_of (anthropic_settings body (request body ms)) ≡ ms
messages-settings body ms =
    let e : get "messages" (anthropic_settings body (request body ms)) ≡ some (arr ms) =
      get-anthropic_settings "messages" body (request body ms) refl refl in
    rw e (elements-items ms)

map-system_messages : (body : Value) → map role_of (system_messages body) ≡ system_roles body
map-system_messages body = elim (Option-cases (extract_anthropic_system body)) [
  | inl e ↦ ground (arith, e)
  | inr (v, e) ↦ ground (arith, e)
]

module _ (print : Value → String) (call_id : ℕ → ℕ → String) where
  role-with_tool_calls :
      (n : ℕ) (content : Value) (bs : List Value)
      → role_of (with_tool_calls print call_id n content bs) ≡ some "assistant"
  unfolding with_tool_calls
  role-with_tool_calls n content bs = ground arith

  role-assistant :
      (n : ℕ) (content : Value)
      → role_of (assistant_message print call_id n content) ≡ some "assistant"
  unfolding assistant_message
  role-assistant n content = elim (Option-cases (as_array content)) [
    | inl e ↦ rw (e, assistant_message) refl
    | inr (bs, e) ↦ rw (e, assistant_message) (role-with_tool_calls n content bs)
  ]

  roles-turn :
      (n : ℕ) (m : Value) (r : String)
      → map role_of (turn print call_id n r (content_of m)) ≡ roles_as r m
  roles-turn n m r = elim (Bool-cases (str_eq r "assistant")) [
    | inl a ↦
        subst (λ s. map role_of (turn print call_id n s (content_of m)) ≡ roles_as s m)
          (sym ((eq_iff r "assistant").0 a)) (ap (λ z. z ∷ []) (role-assistant n (content_of m)))
    | inr a ↦ elim (Bool-cases (str_eq r "user")) [
      | inl u ↦ rw (a, u) (roles-user m)
      | inr u ↦ rw (a, u) refl
    ]
  ]

  roles-read_messages :
      (n : ℕ) (vs out : List Value)
      → read_messages print call_id n vs ≡ ok out
      → map role_of out ≡ roles_for_all vs
  unfolding read_messages
  roles-read_messages n [] out h = ground arith
  roles-read_messages n (v ∷ vs) out h = elim (Option-cases (role_of v)) [
    | inl e ↦ absurd (ground (arith, e))
    | inr (r, e) ↦ elim (Result-cases (read_messages print call_id (suc n) vs)) [
      | inl (x, f) ↦ absurd (ground (arith, e, f))
      | inr (rest, f) ↦
          let this = turn print call_id n r (content_of v) in
          let built : out ≡ this ++ rest = ground (arith, e, f) in
          rw built (
            map-append role_of this rest
            ∙ (ap (λ zs. zs ++ map role_of rest) (roles-turn n v r)
                ∙ (ap (λ zs. roles_as r v ++ zs) (roles-read_messages (suc n) vs rest f)
                    ∙ ap (λ zs. zs ++ roles_for_all vs) (sym (roles_for_lem v r e)))))
    ]
  ]

  -- The messages of a translated Anthropic request have the roles of the messages of the request, in
  -- order, with a message of the role `tool` for each tool result of a user in front of that user's
  -- message, all behind a message of the role `system` if the request has a system prompt.
  pub anthropic_roles :
      (body out : Value)
      → anthropic_to_openai print call_id body ≡ ok out
      → map role_of (messages_of out) ≡ system_roles body ++ roles_for_all (messages_of body)
  unfolding anthropic_to_openai
  anthropic_roles body out h = elim (Bool-cases (is_object body)) [
    | inr e ↦ absurd (ground (arith, e))
    | inl e ↦ elim (Option-cases (and_array (get "messages" body))) [
      | inl f ↦ absurd (ground (arith, e, f))
      | inr (vs, f) ↦ elim (Result-cases (read_messages print call_id 0 vs)) [
        | inl (x, g) ↦ absurd (ground (arith, e, f, g))
        | inr (ms, g) ↦
            let all = system_messages body ++ ms in
            let built : out ≡ anthropic_settings body (request body all) =
              ground (arith, e, f, g) in
            let given : messages_of body ≡ vs = ground (arith, f) in
            rw (built, messages-settings body all, given)
              (map-append role_of (system_messages body) ms
                ∙ (ap (λ zs. zs ++ map role_of ms) (map-system_messages body)
                    ∙ ap (λ zs. system_roles body ++ zs) (roles-read_messages 0 vs ms g)))
      ]
    ]
  ]
