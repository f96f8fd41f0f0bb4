-- ===== src/Gateway/Scheduler/Record.antt =====
-- src/gateway/scheduler.rs: `record_response`, `update_health` and `clear_serving_for`.
pub mod Cooldown
pub mod Health
pub mod Limit
pub mod Slots
use aqua_rust.Common.{
  ℕ, ◌+◌, ◌-◌, ◌*◌, ◌^◌, min, String, Bool, true, false, not, ◌&&◌, Map, retain, insert, ltb, leb,
  u64, secs, is_same, if◌then◌else◌, ◌==◌,
}
use aqua_rust.Gateway.Floats.{Floats, lit, clamp}
use aqua_rust.Gateway.Scheduler.{BucketState, Scheduler, bucket_of}

abbrev pub slide_window : ℕ
slide_window = secs 60

abbrev pub cooldown_429_level1 : ℕ
cooldown_429_level1 = 30

abbrev pub cooldown_429_level2 : ℕ
cooldown_429_level2 = 120

abbrev pub cooldown_429_level3 : ℕ
cooldown_429_level3 = 600

abbrev pub cooldown_403_seconds : ℕ
cooldown_403_seconds = 60

abbrev pub cooldown_403_max : ℕ
cooldown_403_max = 600

-- The seconds of a cooldown after a 429, by the number of those in the window.
unfoldable pub level_429 : ℕ → ℕ
level_429 n =
    if leb 10 n
    then cooldown_429_level3
    else if leb 3 n
    then cooldown_429_level2
    else cooldown_429_level1

unfoldable pub level_403 : ℕ → ℕ
level_403 n = min (cooldown_403_seconds * 2 ^ (min (u64 (n + 1)) 5 - 1)) cooldown_403_max

-- The answers that the `match` on the status tells apart.
pub data Answer : Type 0 where
  limited forbidden server_error no_connection other_error : Answer

unfoldable pub answer_of : ℕ → Answer
answer_of status =
    if status == 429
    then limited
    else if status == 403
    then forbidden
    else if leb 500 status && leb status 599
    then server_error
    else if status == 0
    then no_connection
    else other_error

module _ ⦃f : Floats⦄ where
  open f use {F, ratio, of_u64, add, sub, mul, div, lt, le, is_finite}

  -- The window is over: its counts begin anew.
  slide : ℕ → BucketState F → BucketState F
  slide now b =
      if ltb slide_window (now - b.window_start)
      then record b {
        window_429 = 0;
        window_5xx = 0;
        window_req = 0;
        window_rt_sum = 0;
        window_rt_count = 0;
        window_start = now;
      }
      else b

  count_request : BucketState F → BucketState F
  count_request b = record b {
    total_requests = u64 (b.total_requests + 1);
    window_req = u64 (b.window_req + 1);
  }

  count_latency : ℕ → BucketState F → BucketState F
  count_latency latency_ms b = record b {
    window_rt_sum = u64 (b.window_rt_sum + latency_ms);
    window_rt_count = u64 (b.window_rt_count + 1);
  }

  -- The `match` on the status of a failure.
  penalise : Answer → ℕ → BucketState F → BucketState F
  penalise limited now b = record b {
    total_429 = u64 (b.total_429 + 1);
    window_429 = u64 (b.window_429 + 1);
    cooldown_until = now + secs (level_429 (u64 (b.window_429 + 1)));
    cooldown_reason = "429";
  }
  penalise forbidden now b = record b {
    cooldown_until = now + secs (level_403 (u64 (b.total_429 + b.total_5xx)));
    cooldown_reason = "403";
  }
  penalise server_error now b = record b {
    total_5xx = u64 (b.total_5xx + 1);
    window_5xx = u64 (b.window_5xx + 1);
    cooldown_until = now + secs 10;
    cooldown_reason = "5xx";
  }
  penalise no_connection now b = record b {
    total_conn_err = u64 (b.total_conn_err + 1);
    cooldown_until = now + secs 30;
    cooldown_reason = "conn_err";
  }
  penalise other_error now b = record b { cooldown_until = now + secs 60; cooldown_reason = "4xx" }

  -- `a as f64 / b as f64`, or a value of its own where `b` is 0.
  rate : F → ℕ → ℕ → F
  rate none_yet a b = if b == 0 then none_yet else div (of_u64 a) (of_u64 b)

  unfoldable pub score : BucketState F → F
  unfolding rate
  score b =
      let success_rate = rate (lit 1) b.total_success b.total_requests in
      let avg_rt = rate (lit 500) b.window_rt_sum b.window_rt_count in
      let rt_score =
        clamp (sub (lit 100) (mul (div (sub avg_rt (lit 500)) (lit 9500)) (lit 100))) (lit 0)
          (lit 100) in
      let rate429 = rate (lit 0) b.total_429 b.total_requests in
      let rate5xx = rate (lit 0) b.total_5xx b.total_requests in
      add
        (add (add (mul (mul success_rate (lit 100)) (ratio 40 100)) (mul rt_score (ratio 20 100)))
          (mul (sub (lit 100) (mul rate429 (lit 100))) (ratio 20 100)))
        (mul (sub (lit 100) (mul rate5xx (lit 100))) (ratio 20 100))

  unfoldable pub update_health : BucketState F → BucketState F
  update_health b = record b {
    health_score = if is_finite (score b) then clamp (score b) (lit 0) (lit 100) else lit 100;
  }

  -- The next stage of warming up.
  warm : Bool → F → F
  warm true w = if le (lit 90) w then lit 100 else if le (lit 60) w then lit 90 else lit 60
  warm false w = if le w (lit 60) then lit 30 else if le w (lit 90) then lit 60 else lit 90

  warm_up : Bool → BucketState F → BucketState F
  unfolding warm
  warm_up success b =
      if lt b.warmup_progress (lit 100)
      then record b { warmup_progress = warm success b.warmup_progress }
      else b

  reward : BucketState F → BucketState F
  reward b = record b { total_success = u64 (b.total_success + 1); cooldown_reason = "" }

  -- The bucket before its health is computed.
  unfoldable pub account : Bool → ℕ → ℕ → ℕ → BucketState F → BucketState F
  unfolding slide count_request count_latency penalise reward answer_of
  account success status latency_ms now b =
      let c = count_latency latency_ms (slide now (count_request b)) in
      if success then reward c else penalise (answer_of status) now c

  unfoldable pub clear_serving_for : String → Map (String × ℕ) → Map (String × ℕ)
  clear_serving_for id serving = retain (λ model e. not (is_same e.0 id)) serving

  unfoldable pub record_response : String → Bool → ℕ → ℕ → ℕ → Scheduler F → Scheduler F
  unfolding account update_health warm_up
  record_response id success status latency_ms now s = record s {
    buckets =
        insert id
          (warm_up success
            (update_health (account success status latency_ms now (bucket_of id now s))))
          s.buckets;
    serving = if success then s.serving else clear_serving_for id s.serving;
  }
