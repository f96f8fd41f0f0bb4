-- ===== src/Gateway/Circuit.antt =====
-- src/gateway/circuit.rs: the breaker of each model. A call takes the reading of the clock that
-- its body makes; the counters are `u32`.
pub mod Breaker
pub mod Trips
pub mod Probes
pub mod Safety
mod Tests
use aqua_rust.Common.{
  ℕ, ◌+◌, ◌-◌, ◌<◌, ◌%◌, String, Bool, true, false, ◌&&◌, Option, none, some, List, [], ◌∷◌, Map,
  lookup, insert, unwrap_or, ltb, leb, if◌then◌else◌, secs,
}

pub data State : Type 0 where
  closed opened half_open : State

pub record ModelBreaker : Type 0 where
  pub state : State
  pub fail429 : ℕ
  pub fail5xx : ℕ
  pub window_start : ℕ
  pub open_until : ℕ
  pub half_open_attempts : ℕ

abbrev pub u32 : ℕ → ℕ
u32 n = n % 4294967296

abbrev pub cb_failure_threshold_5xx : ℕ
cb_failure_threshold_5xx = 10

abbrev pub cb_window_duration : ℕ
cb_window_duration = secs 60

abbrev pub cb_open_duration : ℕ
cb_open_duration = secs 60

abbrev pub cb_half_open_max_attempts : ℕ
cb_half_open_max_attempts = 3

unfoldable pub new : ℕ → ModelBreaker
new now = record {
  state = closed;
  fail429 = 0;
  fail5xx = 0;
  window_start = now;
  open_until = now;
  half_open_attempts = 0;
}

-- The `match` of `can_request`, on the entry of the model.
admit : State → ℕ → ModelBreaker → ModelBreaker × Bool
admit closed now b = (b, true)
admit opened now b =
    if leb b.open_until now
    then (record b { state = half_open; half_open_attempts = 1 }, true)
    else (b, false)
admit half_open now b =
    if ltb b.half_open_attempts cb_half_open_max_attempts
    then (record b { half_open_attempts = u32 (b.half_open_attempts + 1) }, true)
    else (b, false)

-- The body of `record_success`, on the entry of the model.
succeed : State → ModelBreaker → ModelBreaker
succeed half_open b = record b { state = closed; fail429 = 0; fail5xx = 0; half_open_attempts = 0 }
succeed _ b = b

abbrev pub is_5xx : ℕ → Bool
is_5xx status = leb 500 status && leb status 599

slide : ℕ → ModelBreaker → ModelBreaker
slide now b =
    if ltb cb_window_duration (now - b.window_start)
    then record b { fail429 = 0; fail5xx = 0; window_start = now }
    else b

count : ℕ → ModelBreaker → ModelBreaker
count status b = if is_5xx status then record b { fail5xx = u32 (b.fail5xx + 1) } else b

trip : ℕ → ModelBreaker → ModelBreaker
trip now b =
    if leb cb_failure_threshold_5xx b.fail5xx
    then record b { state = opened; open_until = now + cb_open_duration }
    else b

-- The `match` of `record_failure`.
fail : State → ℕ → ℕ → ModelBreaker → ModelBreaker
unfolding slide count trip
fail half_open now status b = record b { state = opened; open_until = now + cb_open_duration }
fail closed now status b = trip now (count status (slide now b))
fail opened now status b = b

abbrev pub CircuitBreaker : Type 0
CircuitBreaker = Map ModelBreaker

-- `entry(model).or_insert_with(ModelBreaker::new)`.
abbrev pub breaker_of : String → ℕ → CircuitBreaker → ModelBreaker
breaker_of model now c = unwrap_or (lookup model c) (new now)

unfoldable pub can_request : String → ℕ → CircuitBreaker → CircuitBreaker × Bool
unfolding admit
can_request model now c =
    let (b, ok) = admit (breaker_of model now c).state now (breaker_of model now c) in
    (insert model b c, ok)

unfoldable pub record_success : String → CircuitBreaker → CircuitBreaker
unfolding succeed
record_success model c = elim (lookup model c) [
  | none ↦ c
  | some b ↦ insert model (succeed b.state b) c
]

unfoldable pub record_failure : String → ℕ → ℕ → CircuitBreaker → CircuitBreaker
unfolding fail
record_failure model now status c =
    insert model (fail (breaker_of model now c).state now status (breaker_of model now c)) c

abbrev pub is_opened : State → Bool
is_opened opened = true
is_opened _ = false

unfoldable pub open_count : CircuitBreaker → ℕ
open_count [] = 0
open_count ((k, b) ∷ c) = if is_opened b.state then 1 + open_count c else open_count c

-- What happens to one model's breaker: a request asks, or an outcome is recorded.
pub data Event : Type 0 where
  asks : ℕ → Event
  succeeds : Event
  fails : ℕ → ℕ → Event

-- The breaker after an event, and whether a request was let through.
unfoldable pub step : ModelBreaker → Event → ModelBreaker × Bool
unfolding admit succeed fail
step b (asks now) = admit b.state now b
step b succeeds = (succeed b.state b, false)
step b (fails now status) = (fail b.state now status b, false)

unfoldable pub run : ModelBreaker → List Event → ModelBreaker
unfolding step
run b [] = b
run b (e ∷ es) = run (step b e).0 es
