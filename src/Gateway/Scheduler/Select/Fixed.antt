-- ===== src/Gateway/Scheduler/Select/Fixed.antt =====
-- src/gateway/scheduler.rs: `select_special_key`, `select_line_key` and `select_acu_key`.
use aqua_rust.Common.{
  ℕ, ◌-◌, ◌/◌, String, Bool, ◌&&◌, Option, none, some, List, [], ◌∷◌, Result, ok, err, ltb, is_same,
  if◌then◌else◌,
}
use aqua_rust.Gateway.Floats.{Floats, lit}
use aqua_rust.Gateway.Scheduler.{UpstreamKey, Scheduler, bucket_of, load_active_keys}
use aqua_rust.Gateway.Scheduler.Select.{
  Selection, SelectError, cooling_down, unhealthy, not_found, retry_in, is_healthy,
}

-- `keys.iter().find`.
unfoldable pub find_key : (UpstreamKey → Bool) → List UpstreamKey → Option UpstreamKey
find_key p [] = none
find_key p (k ∷ ks) = if p k then some k else find_key p ks

abbrev pub is_special : String → UpstreamKey → Bool
is_special model k = is_same k.model_scope model && is_same k.status "active"

abbrev pub is_line : String → UpstreamKey → Bool
is_line scope k =
    is_same k.provider "kedang_line" && is_same k.model_scope scope && is_same k.status "active"

abbrev pub is_acu : UpstreamKey → Bool
is_acu k = is_same k.provider "acu" && is_same k.status "active"

module _ ⦃f : Floats⦄ where
  open f use {F, lt}

  -- The checks of the special and of the line keys.
  unfoldable pub check_fixed : ℕ → Scheduler F → UpstreamKey → Result SelectError UpstreamKey
  check_fixed now s k =
      let b = bucket_of k.id now s in
      if ltb now b.cooldown_until
      then err (cooling_down k.id)
      else if is_healthy b
      then ok k
      else err (unhealthy k.id)

  unfoldable pub check_acu : ℕ → Scheduler F → UpstreamKey → Result SelectError UpstreamKey
  check_acu now s k =
      let b = bucket_of k.id now s in
      let remaining = (b.cooldown_until - now) / 1000000000 in
      if ltb now b.cooldown_until && ltb 15 remaining
      then err (retry_in remaining)
      else if lt b.health_score (lit 0)
      then err (unhealthy k.id)
      else ok k

  unfoldable pub select_with :
      (UpstreamKey → Bool)
      → (Scheduler F → UpstreamKey → Result SelectError UpstreamKey)
      → String
      → ℕ
      → Option (List UpstreamKey)
      → Scheduler F
      → Selection
  select_with p check what now fetched s =
      let (s', keys) = load_active_keys now fetched s in
      elim (find_key p keys) [ none ↦ (s', err (not_found what)) | some k ↦ (s', check s' k) ]

  unfoldable pub select_special_key :
      ℕ → Option (List UpstreamKey) → String → Scheduler F → Selection
  unfolding select_with
  select_special_key now fetched model s =
      select_with (is_special model) (check_fixed now) model now fetched s

  unfoldable pub select_line_key : ℕ → Option (List UpstreamKey) → String → Scheduler F → Selection
  unfolding select_with
  select_line_key now fetched scope s =
      select_with (is_line scope) (check_fixed now) scope now fetched s

  unfoldable pub select_acu_key : ℕ → Option (List UpstreamKey) → Scheduler F → Selection
  unfolding select_with
  select_acu_key now fetched s = select_with is_acu (check_acu now) "acu" now fetched s
