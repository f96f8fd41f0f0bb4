-- ===== src/Gateway/Dispatch/Noted.antt =====
-- src/gateway/handler/public.rs: a selection gives a key that is not noted, and a turn notes it.
use aqua_rust.Common.{
  ℕ, ◌≡◌, refl, subst, String, Bool, true, false, not, ◌&&◌, ◌||◌, Option, List, ◌∷◌, ok, err,
  arith, Bool-cases, Option-cases, inl, inr, any,
}
use aqua_rust.Gateway.Floats.{Floats}
use aqua_rust.Gateway.Scheduler.{
  Scheduler, UpstreamKey, begin_request, decrypt_upstream_key, load_active_keys,
}
use aqua_rust.Gateway.Scheduler.Select.{Selection, select_key, is_tried, is_fallback, is_scoped}
use aqua_rust.Gateway.Scheduler.Select.Chosen.{Picks, Best, select_key_outcome}
use aqua_rust.Gateway.Retry.{
  Request, Attempt, Answer, answered, no_connection, is_quota_exhausted_str, should_retry,
  is_success,
}
use aqua_rust.Gateway.Dispatch.{Desk, select_for, failed, refuse, accept, settle, use_key, ask}
use aqua_rust.Gateway.Dispatch.Lines.{Leaves}

-- No line, no channel of its own.
abbrev pub IsGeneral : Request → Type 0
IsGeneral q = (q.line_mode ≡ false) × (q.is_acu ≡ false) × (q.is_special ≡ false)

module _ ⦃f : Floats⦄ where
  open f use {F}

  fallback-untried :
      (now : ℕ) (tried : List String) (scoped : Bool) (model : String) (s : Scheduler F)
      (k : UpstreamKey)
      → is_fallback now tried scoped model s k ≡ true
      → is_tried tried k.id ≡ false
  unfolding is_fallback
  fallback-untried now tried scoped model s k e = elim (Bool-cases (is_tried tried k.id)) [
    | inl h ↦ absurd (ground (arith, e, h))
    | inr h ↦ h
  ]

  picked_untried :
      (now : ℕ) (tried : List String) (model : String) (scoped : Bool) (s : Scheduler F)
      (keys : List UpstreamKey) (x : Selection) (k : UpstreamKey)
      → Picks (Best now tried model scoped s keys) x
      → x.1 ≡ ok k
      → is_tried tried k.id ≡ false
  picked_untried now tried model scoped s keys (s', ok j) k p e =
      let same : j ≡ k = cc in
      subst (λ x. is_tried tried x.id ≡ false) same
        (fallback-untried now tried scoped model s j p.0.1)
  picked_untried now tried model scoped s keys (s', err x) k p e = absurd p

  pub select_key-untried :
      (now : ℕ) (fetched : Option (List UpstreamKey)) (model : String) (tried : List String)
      (s : Scheduler F) (k : UpstreamKey)
      → (select_key now fetched model tried s).1 ≡ ok k
      → is_tried tried k.id ≡ false
  select_key-untried now fetched model tried s k e =
      let (s', keys) = load_active_keys now fetched s in
      elim (select_key_outcome now tried model fetched s) [
        | inl p ↦
            picked_untried now tried model (any (is_scoped model) keys) s' keys
              (select_key now fetched model tried s) k p e
        | inr ((x, g), none_fit) ↦ absurd (cc)
      ]

  pub select_for-general :
      (q : Request) (a : Attempt) (tried : List String) (s : Scheduler F)
      → IsGeneral q
      → select_for q a tried s ≡ select_key a.selected_at a.fetched q.model tried s
  unfolding select_for
  select_for-general q a tried s (h, g, k) = ground arith

  module _ (ts : List String) where
    abbrev pub Has : Desk → Type 0
    Has d = d.tried ≡ ts

    refuse-Has :
        (q : Request) (a : Attempt) (k : String) (status latency_ms : ℕ) (text : String)
        (ra : Option ℕ) (d : Desk)
        → Has d
        → Leaves Has (refuse q a k status latency_ms text ra d)
    unfolding refuse failed
    refuse-Has q a k status latency_ms text ra d e =
        elim (Bool-cases (is_quota_exhausted_str text && (q.line_mode || q.is_special))) [
          | inl h ↦ rw h e
          | inr h ↦ rw h (elim (Bool-cases (not q.line_mode && not (should_retry status))) [
            | inl g ↦ rw g e
            | inr g ↦ rw g e
          ])
        ]

    settle-Has :
        (q : Request) (a : Attempt) (k : String) (answer : Answer) (d : Desk)
        → Has d
        → Leaves Has (settle q a k answer d)
    unfolding settle accept failed
    settle-Has q a k (no_connection latency_ms) d e = e
    settle-Has q a k (answered status latency_ms text ra) d e =
        elim (Bool-cases (is_success status)) [
          | inl h ↦ rw h e
          | inr h ↦ rw h (refuse-Has q a k status latency_ms text ra d e)
        ]

  pub use_key-Has :
      (q : Request) (a : Attempt) (k : UpstreamKey) (d : Desk)
      → Leaves (Has (k.id ∷ d.tried)) (use_key q a k d)
  unfolding use_key
  use_key-Has q a k d =
      let begun = begin_request k.id a.selected_at d.scheduler in
      elim (Option-cases (decrypt_upstream_key a.decrypt a.selected_at k begun).1) [
        | inl h ↦ rw (h, use_key) refl
        | inr (p, h) ↦
            rw (h, use_key)
              (elim (Bool-cases a.builds) [
                | inl g ↦ simp g (settle-Has (k.id ∷ d.tried) q a k.id a.answer _ refl)
                | inr g ↦ simp g refl
              ])
      ]

  pub ask-tried : (q : Request) (a : Attempt) (d : Desk) → (ask q a d).0.tried ≡ d.tried
  unfolding ask
  ask-tried q a d = elim (Bool-cases q.line_mode) [ inl h ↦ rw h refl | inr h ↦ rw h refl ]
