-- ===== src/Gateway/Signing/Replay.antt =====
-- src/gateway/signing.rs: a token that has passed does not pass again while its nonce is
-- remembered.
use aqua_rust.Common.{
  ℕ, ◌+◌, ◌-◌, ◌≤◌, ◌<◌, ◌≡◌, refl, ◌∙◌, ap, ◌≢◌, subst, true, Option, List, [], ◌∷◌, Memᴰ, Result,
  ok, err, Result-cases, filter, length, length-filter-le, Memᴰ-filter, ltb, arith, Bool-cases, inl,
  inr,
}
use aqua_rust.Gateway.Signing.{
  Text, Nonces, Claims, SignError, same_text, is_fresh, is_known, evict, admit_nonce, admit,
  read_token, verify_token, nonce_cache_max, nonce_cache_ttl_secs, sign_window_secs, distance,
}

-- A call of `verify_token`: the time and the token.
pub record Call : Type 0 where
  pub at : ℕ
  pub token : Text

same_text_refl : (a : Text) → same_text a a ≡ true
unfolding same_text
same_text_refl [] = refl
same_text_refl (x ∷ a) = ground (arith, same_text_refl a)

is_known-Memᴰ : (nonce : Text) (t : ℕ) (es : Nonces) → Memᴰ (nonce, t) es → is_known nonce es ≡ true
is_known-Memᴰ nonce t [] m = elim m [ ]
is_known-Memᴰ nonce t (e ∷ es) (Memᴰ.head q) =
    let own : same_text e.0 nonce ≡ true =
      subst (λ d. same_text d.0 nonce ≡ true) q (same_text_refl nonce) in
    ground arith
is_known-Memᴰ nonce t (e ∷ es) (Memᴰ.tail m) = ground (arith, is_known-Memᴰ nonce t es m)

-- An entry is remembered, among at most so many.
Keeps : Text × ℕ → ℕ → Nonces → Type 0
Keeps e n es = Memᴰ e es × (length es ≤ n)

not_evicted :
    (es : Nonces) → length es ≤ nonce_cache_max → evict (length es - nonce_cache_max) es ≡ es
not_evicted es l =
    let none_over : length es - nonce_cache_max ≡ 0 = omega arith in
    ap (λ n. evict n es) none_over ∙ unfold evict in refl

admit_nonce-Keeps :
    (now t n : ℕ) (nonce : Text) (claims : Claims) (es : Nonces)
    → now < t + nonce_cache_ttl_secs
    → n < nonce_cache_max
    → Keeps (nonce, t) n es
    → Keeps (nonce, t) (n + 1) (admit_nonce now claims es).0
unfolding admit_nonce Keeps
admit_nonce-Keeps now t n nonce claims es l s (m, small) =
    let kept = filter (is_fresh now) es in
    let still = Memᴰ-filter (is_fresh now) es (nonce, t) m (ground arith) in
    let fewer = length-filter-le (is_fresh now) es in
    elim (Bool-cases (is_known claims.nonce kept)) [
      | inl h ↦ rw h (still, omega arith)
      | inr h ↦
          rw (h, not_evicted ((claims.nonce, now) ∷ kept) (omega arith))
            (Memᴰ.tail still, omega arith)
    ]

admit-Keeps :
    (now t n : ℕ) (nonce : Text) (es : Nonces) (r : Result SignError Claims)
    → now < t + nonce_cache_ttl_secs
    → n < nonce_cache_max
    → Keeps (nonce, t) n es
    → Keeps (nonce, t) (n + 1) (admit now es r).0
unfolding admit Keeps
admit-Keeps now t n nonce es (err e) l s k = (k.0, omega (arith, k.1))
admit-Keeps now t n nonce es (ok claims) l s k =
    elim (Bool-cases (ltb sign_window_secs (distance now claims.ts))) [
      | inl h ↦ rw h (k.0, omega (arith, k.1))
      | inr h ↦ rw h (admit_nonce-Keeps now t n nonce claims es l s k)
    ]

refused :
    (es : Nonces) (x : SignError) (now : ℕ) (client : Text) → (admit now es (err x)).1 ≢ ok client
unfolding admit
refused es x now client q = cc q

-- What a pass leaves.
admit-pass :
    (now : ℕ) (es : Nonces) (claims : Claims) (client : Text)
    → length es < nonce_cache_max
    → (admit now es (ok claims)).1 ≡ ok client
    → Keeps (claims.nonce, now) (length es + 1) (admit now es (ok claims)).0
unfolding admit admit_nonce Keeps
admit-pass now es claims client s e =
    let kept = filter (is_fresh now) es in
    let fewer = length-filter-le (is_fresh now) es in
    elim (Bool-cases (ltb sign_window_secs (distance now claims.ts))) [
      | inl h ↦ absurd (ground (arith, h, e))
      | inr h ↦ rw h (elim (Bool-cases (is_known claims.nonce kept)) [
        | inl g ↦ absurd (ground (arith, h, g, e))
        | inr g ↦
            rw (g, not_evicted ((claims.nonce, now) ∷ kept) (omega arith))
              (Memᴰ.head refl, omega arith)
      ])
    ]

admit-refuses :
    (now t n : ℕ) (es : Nonces) (claims : Claims) (client : Text)
    → now < t + nonce_cache_ttl_secs
    → Keeps (claims.nonce, t) n es
    → (admit now es (ok claims)).1 ≢ ok client
unfolding admit admit_nonce Keeps
admit-refuses now t n es claims client l k =
    let still = Memᴰ-filter (is_fresh now) es (claims.nonce, t) k.0 (ground arith) in
    let known = is_known-Memᴰ claims.nonce t (filter (is_fresh now) es) still in
    elim (Bool-cases (ltb sign_window_secs (distance now claims.ts))) [
      | inl h ↦ rw h (λ q. cc q)
      | inr h ↦ rw (h, known) (λ q. cc q)
    ]

-- Every call is earlier than a time.
abbrev pub AllBefore : ℕ → List Call → Type 0
AllBefore t [] = Unit
AllBefore t (c ∷ cs) = (c.at < t) × AllBefore t cs

module _ (sign : Text → Text) (decode : Text → Option Text) where
  unfoldable pub calls : List Call → Nonces → Nonces
  calls [] es = es
  calls (c ∷ cs) es = calls cs (verify_token sign decode c.at c.token es).0

  calls-Keeps :
      (t n : ℕ) (nonce : Text) (cs : List Call) (es : Nonces)
      → AllBefore (t + nonce_cache_ttl_secs) cs
      → n + length cs ≤ nonce_cache_max
      → Keeps (nonce, t) n es
      → Keeps (nonce, t) (n + length cs) (calls cs es)
  unfolding calls verify_token Keeps
  calls-Keeps t n nonce [] es b s k = (k.0, omega (arith, k.1))
  calls-Keeps t n nonce (c ∷ cs) es b s k =
      let next =
        admit-Keeps c.at t n nonce es (read_token sign decode c.token) b.0 (omega arith) k in
      let rest = calls-Keeps t (n + 1) nonce cs _ b.1 (omega arith) next in
      (rest.0, omega (arith, rest.1))

  -- A token that has passed is refused for ten minutes, whatever other tokens are checked meanwhile,
  -- where these and the remembered ones are no more than the memory holds.
  pub no_replay :
      (token client other : Text) (t u : ℕ) (cs : List Call) (es : Nonces)
      → (verify_token sign decode t token es).1 ≡ ok client
      → length es + length cs < nonce_cache_max
      → AllBefore (t + nonce_cache_ttl_secs) cs
      → u < t + nonce_cache_ttl_secs
      → (verify_token sign decode u token (calls cs (verify_token sign decode t token es).0)).1
        ≢ ok other
  unfolding verify_token
  no_replay token client other t u cs es e s b l =
      elim (Result-cases (read_token sign decode token)) [
        | inl (x, h) ↦
            absurd (refused es x t client (subst (λ r. (admit t es r).1 ≡ ok client) h e))
        | inr (claims, h) ↦
            let passed = subst (λ r. (admit t es r).1 ≡ ok client) h e in
            let kept = admit-pass t es claims client (omega arith) passed in
            let later = calls-Keeps t (length es + 1) claims.nonce cs _ b (omega arith) kept in
            rw h (admit-refuses u t _ _ claims other l later)
      ]
