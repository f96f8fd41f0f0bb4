-- ===== src/Gateway/Scheduler/Select/Chosen.antt =====
-- What `select_key` returns, and when it returns a key.
use native.Mathlib.Nat.{mod-lt}
use aqua_rust.Common.{
  ℕ, ◌+◌, ◌<◌, ◌%◌, ◌≡◌, refl, ◌⊎◌, String, Bool, true, false, Option, none, some, List, [], ◌∷◌,
  Memᴰ, All, All-sort_by, All-get_elem?, All-map, get_elem?-some, length-sort_by, length, sort_by,
  lookup, ok, err, ltb, is_empty, any, arith, Bool-cases, Option-cases, inl, inr, u64, str_before,
  subst, sym, ap, tests,
}
use aqua_rust.Gateway.Floats.{Floats}
use aqua_rust.Gateway.Scheduler.{UpstreamKey, Scheduler, load_active_keys}
use aqua_rust.Gateway.Scheduler.Select.{
  Scored, Selection, SelectError, exhausted, no_active_keys, candidates, fallbacks, is_candidate,
  is_fallback, is_scoped, find_scored, pick_fallback, pick_at, select_fallback, select_rotating,
  sticky_key, select_candidate, select_among, select_key, rotation_target,
}
use aqua_rust.Gateway.Scheduler.Select.Eligible.{
  Passing, candidates_pass, fallbacks_pass, candidates_pos, fallbacks_pos, fallback_of_candidate,
  find_scored_All,
}

module _ ⦃f : Floats⦄ where
  open f use {F, total_lt}

  -- The selection gives a key, and that key meets a predicate.
  abbrev pub Picks : (UpstreamKey → Type 0) → Selection → Type 0
  Picks P (s, ok k) = P k
  Picks P (s, err e) = ⊥

  pick_fallback-Picks :
      (P : UpstreamKey → Type 0) (model : String) (now : ℕ) (s : Scheduler F) (found : List Scored)
      → All (λ (e : Scored). P e.0) found
      → 0 < length found
      → Picks P (pick_fallback model now s found)
  unfolding pick_fallback
  pick_fallback-Picks P model now s [] h l = absurd (omega arith)
  pick_fallback-Picks P model now s ((k, score) ∷ rest) h l = h.0

  select_fallback-Picks :
      (P : UpstreamKey → Type 0) (model : String) (now : ℕ) (s : Scheduler F) (found : List Scored)
      → All (λ (e : Scored). P e.0) found
      → 0 < length found
      → Picks P (select_fallback model now s found)
  unfolding select_fallback
  select_fallback-Picks P model now s found h l =
      let healthier = λ (a b : Scored). total_lt b.1 a.1 in
      pick_fallback-Picks P model now s (sort_by healthier found)
        (All-sort_by (λ (e : Scored). P e.0) healthier found h)
        (rw (length-sort_by healthier found) l)

  select_rotating-Picks :
      (P : UpstreamKey → Type 0) (model : String) (now : ℕ) (s : Scheduler F) (found : List Scored)
      → All (λ (e : Scored). P e.0) found
      → 0 < length found
      → Picks P (select_rotating model now s found)
  unfolding select_rotating pick_at
  select_rotating-Picks P model now s found h l =
      let by_id = λ (a b : Scored). str_before a.0.id b.0.id in
      let sorted : List Scored = sort_by by_id found in
      let i : ℕ = s.round_robin_index % length found in
      let bound : i < length sorted =
        rw (length-sort_by by_id found) (mod-lt s.round_robin_index l) in
      let (e, at) = get_elem?-some sorted i bound in
      let p : P e.0 =
        All-get_elem? (λ (e : Scored). P e.0) sorted i
          (All-sort_by (λ (e : Scored). P e.0) by_id found h) at in
      let s' : Scheduler F = record s { round_robin_index = u64 (s.round_robin_index + 1) } in
      subst (λ (o : Option Scored). Picks P (pick_at model now s' o)) (sym at) p

  sticky_key_cases :
      (P : UpstreamKey → Type 0) (model : String) (s : Scheduler F) (found : List Scored)
      → All (λ (e : Scored). P e.0) found
      → (sticky_key model s found ≡ none)
        ⊎ ((k : UpstreamKey) × (n : ℕ) × (sticky_key model s found ≡ some (k, n))
            × (n < rotation_target k)
            × P k)
  unfolding sticky_key
  sticky_key_cases P model s found h = elim (Option-cases (lookup model s.serving)) [
    | inl e ↦ inl (rw (e, sticky_key))
    | inr ((id, n), e) ↦ elim (Option-cases (find_scored id found)) [
      | inl g ↦ inl (rw (e, sticky_key, g))
      | inr (k, g) ↦ elim (Bool-cases (ltb n (rotation_target k))) [
        | inl t ↦ inr (k, n, rw (e, sticky_key, g, t), omega tests, find_scored_All P id found h g)
        | inr t ↦ inl (rw (e, sticky_key, g, t))
      ]
    ]
  ]

  select_candidate-Picks :
      (P : UpstreamKey → Type 0) (model : String) (now : ℕ) (s : Scheduler F) (found : List Scored)
      → All (λ (e : Scored). P e.0) found
      → 0 < length found
      → Picks P (select_candidate model now s found)
  unfolding select_candidate
  select_candidate-Picks P model now s found h l = elim (sticky_key_cases P model s found h) [
    | inl e ↦ rw (e, select_candidate) (select_rotating-Picks P model now s found h l)
    | inr (k, n, e, _, p) ↦ rw (e, select_candidate) p
  ]

  module _ (now : ℕ) (tried : List String) (model : String) where
    -- A key that may serve and is healthy, and that is ready unless no key is.
    abbrev pub Best : Bool → Scheduler F → List UpstreamKey → UpstreamKey → Type 0
    Best scoped s keys k =
        Passing (is_fallback now tried scoped model s) keys k
        × ((is_candidate now tried scoped model s k ≡ true)
            ⊎ ((j : UpstreamKey) → Memᴰ j keys → is_candidate now tried scoped model s j ≡ false))

    -- No key may serve and is healthy.
    abbrev pub NoneFit : Bool → Scheduler F → List UpstreamKey → Type 0
    NoneFit scoped s keys =
        (j : UpstreamKey) → Memᴰ j keys → is_fallback now tried scoped model s j ≡ false

    no_candidates :
        (scoped : Bool) (s : Scheduler F) (keys : List UpstreamKey)
        → is_empty (candidates now tried scoped model s keys) ≡ true
        → (j : UpstreamKey) → Memᴰ j keys
        → is_candidate now tried scoped model s j ≡ false
    no_candidates scoped s keys e j m =
        elim (Bool-cases (is_candidate now tried scoped model s j)) [
          | inl h ↦
              let l = candidates_pos now tried scoped model s keys j (m, h) in
              absurd (ground (arith, e, l))
          | inr h ↦ h
        ]

    no_fallbacks :
        (scoped : Bool) (s : Scheduler F) (keys : List UpstreamKey)
        → fallbacks now tried scoped model s keys ≡ []
        → NoneFit scoped s keys
    no_fallbacks scoped s keys e j m = elim (Bool-cases (is_fallback now tried scoped model s j)) [
      | inl h ↦
          let l = fallbacks_pos now tried scoped model s keys j (m, h) in
          absurd (omega (arith, l, ap length e))
      | inr h ↦ h
    ]

    select_fallback_outcome :
        (scoped : Bool) (s : Scheduler F) (keys : List UpstreamKey) (found : List Scored)
        → found ≡ fallbacks now tried scoped model s keys
        → is_empty (candidates now tried scoped model s keys) ≡ true
        → Picks (Best scoped s keys) (select_fallback model now s found)
          ⊎ (((select_fallback model now s found).1 ≡ err exhausted) × NoneFit scoped s keys)
    unfolding select_fallback pick_fallback sort_by
    select_fallback_outcome scoped s keys [] e none_ready =
        inr (refl, no_fallbacks scoped s keys (sym e))
    select_fallback_outcome scoped s keys (x ∷ xs) e none_ready = inl (
        select_fallback-Picks (Best scoped s keys) model now s (x ∷ xs)
          (subst (λ (l : List Scored). All (λ (y : Scored). Best scoped s keys y.0) l) (sym e)
            (All-map _ _ _ (λ (y : Scored) p. (p, inr (no_candidates scoped s keys none_ready)))
              (fallbacks_pass now tried scoped model s keys)))
          (omega arith))

    select_among_outcome :
        (scoped : Bool) (s : Scheduler F) (keys : List UpstreamKey)
        → Picks (Best scoped s keys) (select_among now tried scoped model s keys)
          ⊎ (((select_among now tried scoped model s keys).1 ≡ err exhausted)
              × NoneFit scoped s keys)
    unfolding select_among
    select_among_outcome scoped s keys =
        elim (Bool-cases (is_empty (candidates now tried scoped model s keys))) [
          | inl e ↦ rw e (select_fallback_outcome scoped s keys _ refl e)
          | inr e ↦ rw e (
              inl (
                select_candidate-Picks (Best scoped s keys) model now s _
                  (All-map _ _ _
                    (λ (y : Scored) p.
                      ((p.0, fallback_of_candidate now tried scoped model s keys y.0 p.1), inl p.1))
                    (candidates_pass now tried scoped model s keys))
                  (ground (arith, e))))
        ]

    empty_NoneFit :
        (scoped : Bool) (s : Scheduler F) (keys : List UpstreamKey)
        → is_empty keys ≡ true
        → NoneFit scoped s keys
    empty_NoneFit scoped s [] e j m = elim m [ ]
    empty_NoneFit scoped s (k ∷ ks) e j m = absurd (cc)

    -- `select_key` fails only if no loaded key is untried, in scope and healthy. Otherwise it
    -- gives such a key, and one past its cooldown, with a free slot and within its limit per minute
    -- whenever there is one.
    pub select_key_outcome :
        (fetched : Option (List UpstreamKey)) (s : Scheduler F)
        → let (s', keys) = load_active_keys now fetched s in
          let scoped = any (is_scoped model) keys in
          Picks (Best scoped s' keys) (select_key now fetched model tried s)
          ⊎ (((e : SelectError) × ((select_key now fetched model tried s).1 ≡ err e))
              × NoneFit scoped s' keys)
    unfolding select_key
    select_key_outcome fetched s =
        let (s', keys) = load_active_keys now fetched s in
        let scoped = any (is_scoped model) keys in
        elim (Bool-cases (is_empty keys)) [
          | inl e ↦ rw e (inr ((no_active_keys, refl), empty_NoneFit scoped s' keys e))
          | inr e ↦ rw e (elim (select_among_outcome scoped s' keys) [
            | inl p ↦ inl p
            | inr (p, q) ↦ inr ((exhausted, p), q)
          ])
        ]
