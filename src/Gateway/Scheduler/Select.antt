-- ===== src/Gateway/Scheduler/Select.antt =====
-- src/gateway/scheduler.rs: `rotation_target`, `select_key` and the selections of fixed keys. The
-- set of the keys that a request has tried is a list.
pub mod Eligible
pub mod Chosen
pub mod Fixed
pub mod Slots
use aqua_rust.Common.{
  ℕ, zero, ◌+◌, ◌-◌, ◌*◌, ◌/◌, ◌%◌, ◌≤◌, ◌<◌, min, max, String, Bool, true, false, not, ◌&&◌, ◌||◌,
  Option, none, some, List, [], ◌∷◌, map, Map, lookup, insert, Result, ok, err, pos_part, is_empty,
  filter, any, length, get_elem?, sort_by, ltb, leb, u64, secs, is_same, str_contains, str_is_empty,
  str_before, if◌then◌else◌,
}
use aqua_rust.Gateway.Floats.{Floats, lit}
use aqua_rust.Gateway.Scheduler.{UpstreamKey, BucketState, Scheduler, bucket_of, load_active_keys}

abbrev pub per_key_concurrency_cap : ℕ
per_key_concurrency_cap = 8

abbrev pub rotation_requests_per_weight : ℕ
rotation_requests_per_weight = 6

abbrev pub min_rotation_requests : ℕ
min_rotation_requests = 3

abbrev pub max_rotation_requests : ℕ
max_rotation_requests = 40

-- `weight.max(1)`, times six, clamped.
unfoldable pub rotation_target : UpstreamKey → ℕ
rotation_target key =
    min (max (max (pos_part key.weight) 1 * rotation_requests_per_weight) min_rotation_requests)
      max_rotation_requests

-- `tried.contains(id)`.
abbrev pub is_tried : List String → String → Bool
is_tried tried id = any (λ t. is_same t id) tried

abbrev pub names : String → String → Bool
names scope model = is_same scope model || str_contains scope model

-- A key of its own for the model.
abbrev pub is_scoped : String → UpstreamKey → Bool
is_scoped model k = not (str_is_empty k.model_scope) && names k.model_scope model

-- While a model has keys of its own, the general ones do not serve it.
abbrev pub in_scope : Bool → String → UpstreamKey → Bool
in_scope true model k = is_scoped model k
in_scope false model k = str_is_empty k.model_scope || names k.model_scope model

pub data SelectError : Type 0 where
  no_active_keys exhausted : SelectError
  cooling_down unhealthy : String → SelectError
  not_found : String → SelectError
  retry_in : ℕ → SelectError

module _ ⦃f : Floats⦄ where
  open f use {F, lt, add, mul, div, total_lt}

  abbrev pub health_score_min : F
  health_score_min = lit 10

  abbrev pub is_healthy : BucketState F → Bool
  is_healthy b = not (lt b.health_score health_score_min)

  abbrev pub has_quota : UpstreamKey → BucketState F → Bool
  has_quota k b = not (ltb 0 (pos_part k.rpm_limit) && leb (pos_part k.rpm_limit) b.window_req)

  -- What the candidates have passed: no cooldown, health, a free slot, the limit per minute.
  abbrev pub is_ready : ℕ → UpstreamKey → BucketState F → Bool
  is_ready now k b =
      leb b.cooldown_until now
      && is_healthy b
      && ltb b.inflight per_key_concurrency_cap
      && has_quota k b

  -- A key that the request has not tried and that may serve the model.
  abbrev pub may_serve : List String → Bool → String → UpstreamKey → Bool
  may_serve tried scoped model k = not (is_tried tried k.id) && in_scope scoped model k

  unfoldable pub is_candidate : ℕ → List String → Bool → String → Scheduler F → UpstreamKey → Bool
  is_candidate now tried scoped model s k =
      may_serve tried scoped model k && is_ready now k (bucket_of k.id now s)

  abbrev pub Scored : Type 0
  Scored = UpstreamKey × F

  -- The score that is kept with a candidate.
  unfoldable pub effective : ℕ → String → Scheduler F → UpstreamKey → F
  effective now model s k =
      let b = bucket_of k.id now s in
      add (if is_scoped model k then lit 1000 else lit 0)
        (mul b.health_score (div b.warmup_progress (lit 100)))

  unfoldable pub candidates :
      ℕ → List String → Bool → String → Scheduler F → List UpstreamKey → List Scored
  candidates now tried scoped model s keys =
      map (λ k. (k, effective now model s k)) (filter (is_candidate now tried scoped model s) keys)

  unfoldable pub is_fallback : ℕ → List String → Bool → String → Scheduler F → UpstreamKey → Bool
  is_fallback now tried scoped model s k =
      may_serve tried scoped model k && is_healthy (bucket_of k.id now s)

  unfoldable pub fallbacks :
      ℕ → List String → Bool → String → Scheduler F → List UpstreamKey → List Scored
  fallbacks now tried scoped model s keys =
      map (λ k. (k, (bucket_of k.id now s).health_score))
        (filter (is_fallback now tried scoped model s) keys)

  -- The key serves the model for the `count`-th time in a row.
  unfoldable pub serve : String → UpstreamKey → ℕ → ℕ → Scheduler F → Scheduler F
  serve model key count now s = record s {
    serving = insert model (key.id, count) s.serving;
    buckets = insert key.id (record (bucket_of key.id now s) { last_used_at = now }) s.buckets;
  }

  abbrev pub Selection : Type 0
  Selection = Scheduler F × Result SelectError UpstreamKey

  unfoldable pub pick_fallback : String → ℕ → Scheduler F → List Scored → Selection
  pick_fallback model now s [] = (s, err exhausted)
  pick_fallback model now s ((k, score) ∷ rest) = (serve model k 1 now s, ok k)

  -- The healthiest of the keys that may serve, whatever its load.
  unfoldable pub select_fallback : String → ℕ → Scheduler F → List Scored → Selection
  select_fallback model now s found =
      pick_fallback model now s (sort_by (λ a b. total_lt b.1 a.1) found)

  -- The candidate of that id.
  unfoldable pub find_scored : String → List Scored → Option UpstreamKey
  find_scored id [] = none
  find_scored id ((k, score) ∷ rest) = if is_same k.id id then some k else find_scored id rest

  unfoldable pub pick_at : String → ℕ → Scheduler F → Option Scored → Selection
  pick_at model now s none = (s, err exhausted)
  pick_at model now s (some (k, score)) = (serve model k 1 now s, ok k)

  -- The next of the candidates in the order of their ids. The index is below the length, so the
  -- case of no such candidate does not arise.
  unfoldable pub select_rotating : String → ℕ → Scheduler F → List Scored → Selection
  select_rotating model now s found =
      let sorted = sort_by (λ a b. str_before a.0.id b.0.id) found in
      let i = s.round_robin_index % length found in
      pick_at model now (record s { round_robin_index = u64 (s.round_robin_index + 1) })
        (get_elem? sorted i)

  -- The key that serves the model goes on until its target, if it is still a candidate.
  unfoldable pub sticky_key : String → Scheduler F → List Scored → Option (UpstreamKey × ℕ)
  sticky_key model s found = elim (lookup model s.serving) [
    | none ↦ none
    | some (id, count) ↦ elim (find_scored id found) [
      | none ↦ none
      | some k ↦ if ltb count (rotation_target k) then some (k, count) else none
    ]
  ]

  unfoldable pub select_candidate : String → ℕ → Scheduler F → List Scored → Selection
  select_candidate model now s found = elim (sticky_key model s found) [
    | some (k, count) ↦ (serve model k (u64 (count + 1)) now s, ok k)
    | none ↦ select_rotating model now s found
  ]

  unfoldable pub select_among :
      ℕ → List String → Bool → String → Scheduler F → List UpstreamKey → Selection
  select_among now tried scoped model s keys =
      let found = candidates now tried scoped model s keys in
      if is_empty found
      then select_fallback model now s (fallbacks now tried scoped model s keys)
      else select_candidate model now s found

  unfoldable pub select_key :
      ℕ → Option (List UpstreamKey) → String → List String → Scheduler F → Selection
  select_key now fetched model tried s =
      let (s', keys) = load_active_keys now fetched s in
      if is_empty keys
      then (s', err no_active_keys)
      else select_among now tried (any (is_scoped model) keys) model s' keys
