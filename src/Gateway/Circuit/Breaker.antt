-- ===== src/Gateway/Circuit/Breaker.antt =====
-- The breaker's invariant, and the map of breakers: one model's calls leave the others alone.
use aqua_rust.Common.{
  ℕ, ◌≤◌, ◌<◌, ◌≡◌, ◌≢◌, String, some, List, [], ◌∷◌, lookup, lookup-insert_ne, lookup-insert_self,
  Option-cases, arith, inl, inr,
}
use aqua_rust.Gateway.Circuit.{
  ModelBreaker, CircuitBreaker, closed, half_open, new, step, run, Event, asks, succeeds, fails,
  can_request, record_success, record_failure, cb_failure_threshold_5xx, cb_half_open_max_attempts,
}

-- Below the threshold while closed; between one and three probes while half open.
pub record Inv (b : ModelBreaker) : Type 0 where
  pub below : b.state ≡ closed → b.fail5xx < cb_failure_threshold_5xx
  pub probed : b.state ≡ half_open → 1 ≤ b.half_open_attempts
  pub capped : b.half_open_attempts ≤ cb_half_open_max_attempts
  pub counted : b.fail5xx ≤ cb_failure_threshold_5xx

pub new-Inv : (now : ℕ) → Inv (new now)
unfolding new
new-Inv now = ground arith

pub step-Inv : (b : ModelBreaker) (e : Event) → Inv b → Inv (step b e).0
unfolding step
step-Inv b (asks now) v = ground arith
step-Inv b succeeds v = ground arith
step-Inv b (fails now status) v = ground arith

-- Whatever is asked and recorded, from a new breaker on: while it is closed fewer than ten 5xx
-- are counted, and at most three probes are counted while it is half open, so that no `u32`
-- counter wraps.
pub run-Inv : (b : ModelBreaker) (es : List Event) → Inv b → Inv (run b es)
unfolding run
run-Inv b [] v = v
run-Inv b (e ∷ es) v = run-Inv (step b e).0 es (step-Inv b e v)

-- A call of the map.
pub data Call : Type 0 where
  can_requests : String → ℕ → Call
  record_successes : String → Call
  record_failures : String → ℕ → ℕ → Call

abbrev pub model_of : Call → String
model_of (can_requests m now) = m
model_of (record_successes m) = m
model_of (record_failures m now status) = m

abbrev pub perform : Call → CircuitBreaker → CircuitBreaker
perform (can_requests m now) c = (can_request m now c).0
perform (record_successes m) c = record_success m c
perform (record_failures m now status) c = record_failure m now status c

abbrev pub event_of : Call → Event
event_of (can_requests m now) = asks now
event_of (record_successes m) = succeeds
event_of (record_failures m now status) = fails now status

-- A call about one model leaves the breaker of every other model as it was.
pub perform_isolated :
    (call : Call) (c : CircuitBreaker) (m : String)
    → model_of call ≢ m
    → lookup m (perform call c) ≡ lookup m c
unfolding can_request record_success record_failure
perform_isolated (can_requests k now) c m h = lookup-insert_ne k m _ c h
perform_isolated (record_failures k now status) c m h = lookup-insert_ne k m _ c h
perform_isolated (record_successes k) c m h = elim (Option-cases (lookup k c)) [
  | inl e ↦ rw (e, record_success)
  | inr (b, e) ↦ rw (e, record_success) (lookup-insert_ne k m _ c h)
]

-- On the model's own breaker, once there is one, a call makes the step of its event.
pub perform-step :
    (call : Call) (c : CircuitBreaker) (b : ModelBreaker)
    → lookup (model_of call) c ≡ some b
    → lookup (model_of call) (perform call c) ≡ some (step b (event_of call)).0
unfolding can_request record_success record_failure step
perform-step (can_requests k now) c b h = rw (h, can_request) (lookup-insert_self k _ c)
perform-step (record_failures k now status) c b h =
    rw (h, record_failure) (lookup-insert_self k _ c)
perform-step (record_successes k) c b h = rw (h, record_success) (lookup-insert_self k _ c)
