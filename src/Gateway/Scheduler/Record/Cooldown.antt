-- ===== src/Gateway/Scheduler/Record/Cooldown.antt =====
-- How long a key rests after a failure.
use aqua_rust.Common.{
  ℕ, zero, suc, ◌+◌, ◌-◌, ◌*◌, ◌^◌, min, ◌≤◌, ◌<◌, ◌≡◌, refl, ◌≢◌, String, Bool, false, not, some,
  List, Map, lookup, lookup-insert_self, lookup-retain, Distinct, secs, arith, u64, is_same,
}
use aqua_rust.Gateway.Floats.{Floats}
use aqua_rust.Gateway.Scheduler.{UpstreamKey, BucketState, Scheduler, bucket_of}
use aqua_rust.Gateway.Scheduler.Select.{is_candidate}
use aqua_rust.Gateway.Scheduler.Record.{
  Answer, limited, forbidden, server_error, no_connection, other_error, answer_of, level_429,
  level_403, account, update_health, warm_up, record_response, clear_serving_for, penalise,
}

level_429_bounds : (n : ℕ) → (30 ≤ level_429 n) × (level_429 n ≤ 600)
unfolding level_429
level_429_bounds n = ground arith

-- The five steps of the backoff.
power_bounds : (k : ℕ) → k ≤ 4 → (60 ≤ 60 * 2 ^ k) × (60 * 2 ^ k ≤ 960)
power_bounds zero h = (omega arith, omega arith)
power_bounds (suc zero) h = (omega arith, omega arith)
power_bounds (suc (suc zero)) h = (omega arith, omega arith)
power_bounds (suc (suc (suc zero))) h = (omega arith, omega arith)
power_bounds (suc (suc (suc (suc zero)))) h = (omega arith, omega arith)
power_bounds (suc (suc (suc (suc (suc k))))) h = absurd (omega arith)

level_403_bounds : (n : ℕ) → (60 ≤ level_403 n) × (level_403 n ≤ 600)
unfolding level_403
level_403_bounds n = omega (arith, power_bounds (min (u64 (n + 1)) 5 - 1) (omega arith))

module _ ⦃f : Floats⦄ where
  open f use {F}

  penalise_cools :
      (a : Answer) (now : ℕ) (b : BucketState F)
      → (now + secs 10 ≤ (penalise a now b).cooldown_until)
        × ((penalise a now b).cooldown_until ≤ now + secs 600)
  unfolding penalise
  penalise_cools limited now b = omega (arith, level_429_bounds (u64 (b.window_429 + 1)))
  penalise_cools forbidden now b = omega (arith, level_403_bounds (u64 (b.total_429 + b.total_5xx)))
  penalise_cools server_error now b = omega arith
  penalise_cools no_connection now b = omega arith
  penalise_cools other_error now b = omega arith

  account_cools :
      (status latency now : ℕ) (b : BucketState F)
      → (now + secs 10 ≤ (account false status latency now b).cooldown_until)
        × ((account false status latency now b).cooldown_until ≤ now + secs 600)
  unfolding account
  account_cools status latency now b = penalise_cools (answer_of status) now _

  cooldown_kept :
      (success : Bool) (b : BucketState F)
      → (warm_up success (update_health b)).cooldown_until ≡ b.cooldown_until
  unfolding warm_up update_health
  cooldown_kept success b = ground arith

  -- After a failed response the key rests for at least ten seconds and at most ten minutes.
  pub failure_cools :
      (id : String) (status latency now at : ℕ) (s : Scheduler F)
      → let b = bucket_of id at (record_response id false status latency now s) in
        (now + secs 10 ≤ b.cooldown_until) × (b.cooldown_until ≤ now + secs 600)
  unfolding record_response
  failure_cools id status latency now at s =
      let old = bucket_of id now s in
      let counted = account false status latency now old in
      rw (lookup-insert_self id (warm_up false (update_health counted)) s.buckets)
        (rw (cooldown_kept false counted) (account_cools status latency now old))

  cleared :
      (id model : String) (n : ℕ) (serving : Map (String × ℕ))
      → Distinct serving
      → lookup model (clear_serving_for id serving) ≢ some (id, n)
  unfolding clear_serving_for
  cleared id model n serving d h =
      let kept = lookup-retain (λ m e. not (is_same e.0 id)) model (id, n) serving d h in
      absurd (ground (arith, kept.1))

  serving_after :
      (id : String) (status latency now : ℕ) (s : Scheduler F)
      → (record_response id false status latency now s).serving ≡ clear_serving_for id s.serving
  unfolding record_response
  serving_after id status latency now s = refl

  -- No model goes on with a key that has just failed, and for ten seconds the key is no candidate
  -- for any model.
  pub failed_key_rests :
      (k : UpstreamKey) (status latency now later : ℕ) (tried : List String) (scoped : Bool)
      (model : String) (n : ℕ) (s : Scheduler F)
      → Distinct s.serving
      → later < now + secs 10
      → let s' = record_response k.id false status latency now s in
        (is_candidate later tried scoped model s' k ≡ false)
        × (lookup model s'.serving ≢ some (k.id, n))
  unfolding is_candidate
  failed_key_rests k status latency now later tried scoped model n s d h = (
    ground (arith, failure_cools k.id status latency now later s),
    rw (serving_after k.id status latency now s) (cleared k.id model n s.serving d),
  )
