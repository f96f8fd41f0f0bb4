-- ===== src/Gateway/Scheduler/Select/Eligible.antt =====
-- The candidates and the fallbacks of a selection: which keys they are, and when there are any.
use aqua_rust.Common.{
  ℕ, ◌<◌, ◌≡◌, refl, String, Bool, true, some, List, [], ◌∷◌, map, Memᴰ, All, All-filter_mem,
  length, length-filter_pos, arith,
}
use aqua_rust.Gateway.Floats.{Floats}
use aqua_rust.Gateway.Scheduler.{UpstreamKey, Scheduler, bucket_of}
use aqua_rust.Gateway.Scheduler.Select.{
  Scored, candidates, fallbacks, is_candidate, is_fallback, find_scored, effective,
}

module _ ⦃f : Floats⦄ where
  open f use {F}

  -- A key of the list that passes a test.
  abbrev pub Passing : (UpstreamKey → Bool) → List UpstreamKey → UpstreamKey → Type 0
  Passing p keys k = Memᴰ k keys × (p k ≡ true)

  All-scored :
      (P : UpstreamKey → Type 0) (g : UpstreamKey → F) (ks : List UpstreamKey)
      → All P ks
      → All (λ (e : Scored). P e.0) (map (λ k. (k, g k)) ks)
  All-scored P g [] h = tt
  All-scored P g (k ∷ ks) h = (h.0, All-scored P g ks h.1)

  length-scored :
      (g : UpstreamKey → F) (ks : List UpstreamKey)
      → length (map {B = Scored} (λ k. (k, g k)) ks) ≡ length ks
  length-scored g [] = refl
  length-scored g (k ∷ ks) = omega (arith, length-scored g ks)

  module _ (now : ℕ) (tried : List String) (scoped : Bool) (model : String) (s : Scheduler F)
      (keys : List UpstreamKey) where
    pub candidates_pass :
        All
          (λ (e : Scored). Passing (is_candidate now tried scoped model s) keys e.0)
          (candidates now tried scoped model s keys)
    unfolding candidates
    candidates_pass =
        All-scored (Passing (is_candidate now tried scoped model s) keys) _ _
          (All-filter_mem (is_candidate now tried scoped model s) keys)

    pub fallbacks_pass :
        All
          (λ (e : Scored). Passing (is_fallback now tried scoped model s) keys e.0)
          (fallbacks now tried scoped model s keys)
    unfolding fallbacks
    fallbacks_pass =
        All-scored (Passing (is_fallback now tried scoped model s) keys) _ _
          (All-filter_mem (is_fallback now tried scoped model s) keys)

    pub candidates_pos :
        (k : UpstreamKey)
        → Passing (is_candidate now tried scoped model s) keys k
        → 0 < length (candidates now tried scoped model s keys)
    unfolding candidates
    candidates_pos k (m, h) =
        rw (length-scored (effective now model s))
          (length-filter_pos (is_candidate now tried scoped model s) keys k m h)

    pub fallbacks_pos :
        (k : UpstreamKey)
        → Passing (is_fallback now tried scoped model s) keys k
        → 0 < length (fallbacks now tried scoped model s keys)
    unfolding fallbacks
    fallbacks_pos k (m, h) =
        rw (length-scored (λ k. (bucket_of k.id now s).health_score))
          (length-filter_pos (is_fallback now tried scoped model s) keys k m h)

    -- What is ready is healthy.
    pub fallback_of_candidate :
        (k : UpstreamKey)
        → is_candidate now tried scoped model s k ≡ true
        → is_fallback now tried scoped model s k ≡ true
    unfolding is_candidate is_fallback
    fallback_of_candidate k h = ground arith

  pub find_scored_All :
      (P : UpstreamKey → Type 0) (id : String) (found : List Scored) {k : UpstreamKey}
      → All (λ (e : Scored). P e.0) found
      → find_scored id found ≡ some k
      → P k
  unfolding find_scored
  find_scored_All P id [] h e = absurd (cc)
  find_scored_All P id ((k, score) ∷ rest) {k = x} h e =
      ground (arith, h.0, find_scored_All P id rest {k = x} h.1)
