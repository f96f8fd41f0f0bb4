-- ===== src/Gateway/Admission/Waits.antt =====
-- src/gateway/handler/public.rs: how long the limiter keeps a request.
use aqua_rust.Common.{
  ℕ, String, true, Option, none, some, guard, Result, ◌||◌, not, is_some, if◌then◌else◌, List, [],
  ◌∷◌, ◌++◌, ok, All, length, ◌≤◌, ◌≡◌, sym, subst, ltb, ok-eq-ok, >>=-eq-ok, length-append,
  All-append, arith, ◌⊎◌, Bool-cases, inl, inr,
}
use aqua_rust.Gateway.Admission.{
  Admitted, Named, admit, soft_limit, throttle, own_channel, is_script,
}
use aqua_rust.Gateway.Admission.Surroundings.{
  Client, Limits, Site, is_super_whitelisted, commercial_detected, Refusal,
}
use aqua_rust.Gateway.Admission.Lines.{admit-Stages}

-- At most `k` sleeps, none of them above the bound.
abbrev pub Within : ℕ → ℕ → List ℕ → Type 0
Within max_wait k ws = (length ws ≤ k) × All (λ w. w ≤ max_wait) ws

soft_limit-Within :
    (max_wait : ℕ) (o : Option ℕ) (ws : List ℕ)
    → soft_limit max_wait o ≡ ok ws
    → Within max_wait 1 ws
unfolding soft_limit
soft_limit-Within max_wait none ws h = subst (Within max_wait 1) (ok-eq-ok h) (omega arith, tt)
soft_limit-Within max_wait (some wait) ws h = elim (Bool-cases (ltb max_wait wait)) [
  | inl e ↦ absurd (ground (arith, e))
  | inr e ↦
      let whole : Path (Result Refusal (List ℕ)) (ok (wait ∷ [])) (ok ws) = ground (arith, e) in
      subst (Within max_wait 1) (ok-eq-ok whole) (omega arith, (ground (arith, e), tt))
]

Within-append :
    (max_wait : ℕ) (xs ys : List ℕ)
    → Within max_wait 1 xs
    → Within max_wait 1 ys
    → Within max_wait 2 (xs ++ ys)
Within-append max_wait xs ys (m, a) (n, b) =
    (omega (arith, length-append xs ys, m, n), All-append (λ w. w ≤ max_wait) xs ys a b)

module _ (s : Site) (l : Limits) (n : Named) (c : Client) (ua : String) where
  own_channel-Within : (ws : List ℕ) → own_channel s l c ua ≡ ok ws → Within l.max_wait 2 ws
  unfolding own_channel
  own_channel-Within ws h =
      let top = is_super_whitelisted s c.user_id in
      let (first, x, h₁) = >>=-eq-ok (soft_limit l.max_wait l.global) _ h in
      let (second, y, h₂) =
        >>=-eq-ok (soft_limit l.max_wait (if top then l.super_user else l.user)) _ h₁ in
      let (u, z, h₃) =
        >>=-eq-ok (guard (top || not (is_script ua) || not (is_some l.script)) commercial_detected)
          _ h₂ in
      subst (Within l.max_wait 2) (ok-eq-ok h₃) (
        Within-append l.max_wait first second (soft_limit-Within l.max_wait _ first x)
          (soft_limit-Within l.max_wait _ second y))

  throttle-Within :
      (ws : List ℕ)
      → throttle s l n c ua ≡ ok ws
      → ((s.is_acu n.corrected ≡ true) ⊎ (ws ≡ [])) × Within l.max_wait 2 ws
  unfolding throttle
  throttle-Within ws h = elim (Bool-cases (s.is_acu n.corrected)) [
    | inr e ↦
        let whole : Path (Result Refusal (List ℕ)) (ok []) (ok ws) = ground (arith, e) in
        (inr (sym (ok-eq-ok whole)), subst (Within l.max_wait 2) (ok-eq-ok whole) (omega arith, tt))
    | inl e ↦ (inl e, own_channel-Within ws (ground (arith, e)))
  ]

-- A request that is admitted has slept at most twice, each time for no longer than the bound of the
-- limiter, and not at all if its model is not one of the own channel.
pub waits_bounded :
    (s : Site) (l : Limits) (bytes : List ℕ) (api_key ip ua : String) (a : Admitted)
    → admit s l bytes api_key ip ua ≡ ok a
    → ((s.is_acu a.named.corrected ≡ true) ⊎ (a.waits ≡ [])) × Within l.max_wait 2 a.waits
waits_bounded s l bytes api_key ip ua a h =
    let (b, w, k, r, t) = admit-Stages s l bytes api_key ip ua a h in
    throttle-Within s l a.named a.client ua a.waits t
