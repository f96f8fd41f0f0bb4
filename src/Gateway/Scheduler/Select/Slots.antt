-- ===== src/Gateway/Scheduler/Select/Slots.antt =====
-- src/gateway/scheduler.rs: no selection changes the slots of a key.
use aqua_rust.Common.{
  ℕ, ◌≡◌, refl, ◌∙◌, String, Bool, Option, none, some, List, [], ◌∷◌, Result, Bool-cases,
  Option-cases, inl, inr, is_empty, any,
}
use aqua_rust.Gateway.Floats.{Floats}
use aqua_rust.Gateway.Scheduler.{Scheduler, UpstreamKey, bucket_of, load_active_keys}
use aqua_rust.Gateway.Scheduler.Inflight.{inflight, rebucketed, load-inflight}
use aqua_rust.Gateway.Scheduler.Select.{
  SelectError, Scored, serve, pick_fallback, select_fallback, pick_at, select_rotating,
  select_candidate, sticky_key, select_among, select_key, is_scoped, candidates,
}
use aqua_rust.Gateway.Scheduler.Select.Fixed.{
  select_with, find_key, is_line, is_special, is_acu, check_fixed, check_acu, select_line_key,
  select_acu_key, select_special_key,
}

module _ ⦃f : Floats⦄ (id : String) where
  open f use {F}

  serve-inflight :
      (model : String) (k : UpstreamKey) (n now : ℕ) (s : Scheduler F)
      → inflight id (serve model k n now s) ≡ inflight id s
  unfolding serve
  serve-inflight model k n now s =
      rebucketed id k.id now (record (bucket_of k.id now s) { last_used_at = now }) s
        (serve model k n now s) refl refl

  pick_fallback-inflight :
      (model : String) (now : ℕ) (s : Scheduler F) (found : List Scored)
      → inflight id (pick_fallback model now s found).0 ≡ inflight id s
  unfolding pick_fallback
  pick_fallback-inflight model now s [] = refl
  pick_fallback-inflight model now s ((k, score) ∷ rest) = serve-inflight model k 1 now s

  pick_at-inflight :
      (model : String) (now : ℕ) (s : Scheduler F) (o : Option Scored)
      → inflight id (pick_at model now s o).0 ≡ inflight id s
  unfolding pick_at
  pick_at-inflight model now s none = refl
  pick_at-inflight model now s (some (k, score)) = serve-inflight model k 1 now s

  select_candidate-inflight :
      (model : String) (now : ℕ) (s : Scheduler F) (found : List Scored)
      → inflight id (select_candidate model now s found).0 ≡ inflight id s
  unfolding select_rotating select_candidate inflight
  select_candidate-inflight model now s found = elim (Option-cases (sticky_key model s found)) [
    | inl e ↦ rw (e, select_candidate) (pick_at-inflight model now _ _)
    | inr ((k, n), e) ↦ rw (e, select_candidate) (serve-inflight model k _ now s)
  ]

  select_among-inflight :
      (now : ℕ) (tried : List String) (scoped : Bool) (model : String) (s : Scheduler F)
      (keys : List UpstreamKey)
      → inflight id (select_among now tried scoped model s keys).0 ≡ inflight id s
  unfolding select_among select_fallback
  select_among-inflight now tried scoped model s keys =
      elim (Bool-cases (is_empty (candidates now tried scoped model s keys))) [
        | inl e ↦ rw e (pick_fallback-inflight model now s _)
        | inr e ↦ rw e (select_candidate-inflight model now s _)
      ]

  pub select_key-inflight :
      (now : ℕ) (fetched : Option (List UpstreamKey)) (model : String) (tried : List String)
      (s : Scheduler F)
      → inflight id (select_key now fetched model tried s).0 ≡ inflight id s
  unfolding select_key
  select_key-inflight now fetched model tried s =
      let (s', keys) = load_active_keys now fetched s in
      let loaded = load-inflight id now fetched s in
      elim (Bool-cases (is_empty keys)) [
        | inl e ↦ rw e loaded
        | inr e ↦
            rw e
              (select_among-inflight now tried (any (is_scoped model) keys) model s' keys ∙ loaded)
      ]

  select_with-inflight :
      (p : UpstreamKey → Bool) (check : Scheduler F → UpstreamKey → Result SelectError UpstreamKey)
      (what : String) (now : ℕ) (fetched : Option (List UpstreamKey)) (s : Scheduler F)
      → inflight id (select_with p check what now fetched s).0 ≡ inflight id s
  unfolding select_with
  select_with-inflight p check what now fetched s =
      let loaded = load-inflight id now fetched s in
      elim (Option-cases (find_key p (load_active_keys now fetched s).1)) [
        | inl e ↦ rw (e, select_with) loaded
        | inr (k, e) ↦ rw (e, select_with) loaded
      ]

  pub select_line_key-inflight :
      (now : ℕ) (fetched : Option (List UpstreamKey)) (scope : String) (s : Scheduler F)
      → inflight id (select_line_key now fetched scope s).0 ≡ inflight id s
  unfolding select_line_key
  select_line_key-inflight now fetched scope s =
      select_with-inflight (is_line scope) (check_fixed now) scope now fetched s

  pub select_special_key-inflight :
      (now : ℕ) (fetched : Option (List UpstreamKey)) (model : String) (s : Scheduler F)
      → inflight id (select_special_key now fetched model s).0 ≡ inflight id s
  unfolding select_special_key
  select_special_key-inflight now fetched model s =
      select_with-inflight (is_special model) (check_fixed now) model now fetched s

  pub select_acu_key-inflight :
      (now : ℕ) (fetched : Option (List UpstreamKey)) (s : Scheduler F)
      → inflight id (select_acu_key now fetched s).0 ≡ inflight id s
  unfolding select_acu_key
  select_acu_key-inflight now fetched s =
      select_with-inflight is_acu (check_acu now) "acu" now fetched s
