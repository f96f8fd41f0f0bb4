-- ===== src/Gateway/Translator/Anthropic/Refuses.antt =====
-- src/gateway/translator.rs: which Anthropic requests are refused.
use aqua_rust.Common.{
  ℕ, suc, String, true, some, List, [], ◌∷◌, ◌++◌, ok, ◌≡◌, ◌↔◌, refl, inl, inr, Option-cases,
  Result-cases, Bool-cases, All, arith,
}
use aqua_rust.Common.Json.{Value, get, and_str, and_array, is_object}
use aqua_rust.Gateway.Translator.Anthropic.{
  anthropic_to_openai, read_messages, turn, content_of, anthropic_settings, request,
  system_messages,
}

-- The message has a role that is a text.
abbrev pub HasRole : Value → Type 0
HasRole m = (r : String) × (and_str (get "role" m) ≡ some r)

module _ (print : Value → String) (call_id : ℕ → ℕ → String) where
  read_messages-ok :
      (m : ℕ) (vs : List Value)
      → All HasRole vs
      → (out : List Value) × (read_messages print call_id m vs ≡ ok out)
  unfolding read_messages
  read_messages-ok m [] h = ([], refl)
  read_messages-ok m (v ∷ vs) h =
      let (rest, e) = read_messages-ok (suc m) vs h.1 in
      (turn print call_id m h.0.0 (content_of v) ++ rest, ground (arith, h.0.1, e))

  read_messages-HasRole :
      (m : ℕ) (vs out : List Value) → read_messages print call_id m vs ≡ ok out → All HasRole vs
  unfolding read_messages
  read_messages-HasRole m [] out h = tt
  read_messages-HasRole m (v ∷ vs) out h = elim (Option-cases (and_str (get "role" v))) [
    | inl e ↦ absurd (ground (arith, e))
    | inr (r, e) ↦ elim (Result-cases (read_messages print call_id (suc m) vs)) [
      | inl (x, f) ↦ absurd (ground (arith, e, f))
      | inr (rest, f) ↦ ((r, e), read_messages-HasRole (suc m) vs rest f)
    ]
  ]

  -- An Anthropic request is translated exactly when it is an object with an array of messages of
  -- which each has a text as its role.
  pub anthropic_to_openai_iff :
      (body : Value)
      → ((out : Value) × (anthropic_to_openai print call_id body ≡ ok out)) ↔ (
          (is_object body ≡ true)
          × ((ms : List Value) × (and_array (get "messages" body) ≡ some ms) × All HasRole ms))
  unfolding anthropic_to_openai
  anthropic_to_openai_iff body = (
    λ (out, h). elim (Bool-cases (is_object body)) [
      | inr e ↦ absurd (ground (arith, e))
      | inl e ↦ elim (Option-cases (and_array (get "messages" body))) [
        | inl f ↦ absurd (ground (arith, e, f))
        | inr (ms, f) ↦ elim (Result-cases (read_messages print call_id 0 ms)) [
          | inl (x, g) ↦ absurd (ground (arith, e, f, g))
          | inr (vs, g) ↦ (e, (ms, f, read_messages-HasRole 0 ms vs g))
        ]
      ]
    ],
    λ (e, (ms, f, roles)).
        let (vs, g) = read_messages-ok 0 ms roles in
        (
          anthropic_settings body (request body (system_messages body ++ vs)),
          ground (arith, e, f, g),
        ),
  )
