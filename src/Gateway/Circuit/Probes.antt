-- ===== src/Gateway/Circuit/Probes.antt =====
-- What an open breaker lets through.
use aqua_rust.Common.{
  ℕ, ◌+◌, ◌-◌, ◌≤◌, ◌<◌, ◌≡◌, refl, List, [], ◌∷◌, arith, map, All, if◌then◌else◌, leb, min, length,
  Bool-cases, inl, inr, subst, sym,
}
use aqua_rust.Gateway.Circuit.{
  ModelBreaker, State, opened, half_open, step, run, asks, fails, cb_open_duration,
}

-- How many of the requests made at these times are let through, no outcome being recorded between.
abbrev pub admitted : ModelBreaker → List ℕ → ℕ
admitted b [] = 0
admitted b (t ∷ ts) = (if (step b (asks t)).1 then 1 else 0) + admitted (step b (asks t)).0 ts

-- The probes that a state still allows.
abbrev allowance : State → ℕ → ℕ
allowance half_open n = 3 - n
allowance _ n = 3

-- Until `open_until` an open breaker refuses all, and stays as it is.
pub refuses_until :
    (b : ModelBreaker) (ts : List ℕ)
    → b.state ≡ opened
    → All (λ t. t < b.open_until) ts
    → (admitted b ts ≡ 0) × (run b (map asks ts) ≡ b)
unfolding step run
refuses_until b [] h a = (refl, refl)
refuses_until b (t ∷ ts) h a = ground (arith, refuses_until b ts h a.1)

-- The requests from the first on that comes once the time of the breaker is over.
abbrev pub from_due : ℕ → List ℕ → List ℕ
from_due until [] = []
from_due until (t ∷ ts) = if leb until t then t ∷ ts else from_due until ts

admitted_half_open :
    (b : ModelBreaker) (ts : List ℕ)
    → b.state ≡ half_open
    → b.half_open_attempts ≤ 3
    → admitted b ts ≡ min (3 - b.half_open_attempts) (length ts)
unfolding step
admitted_half_open b [] h l = omega arith
admitted_half_open b (t ∷ ts) h l = ground (arith, admitted_half_open (step b (asks t)).0 ts)

-- Of the requests that ask an open breaker before an outcome is recorded, as many are let through as
-- come after the first that finds its time to be over, that one with them, but three at most. No
-- time is late enough for a fourth.
pub probes_counted :
    (b : ModelBreaker) (ts : List ℕ)
    → b.state ≡ opened
    → admitted b ts ≡ min 3 (length (from_due b.open_until ts))
unfolding step
probes_counted b [] h = omega arith
probes_counted b (t ∷ ts) h = elim (Bool-cases (leb b.open_until t)) [
  | inl e ↦
      let b' = record b { state = half_open; half_open_attempts = 1 } in
      ground (arith, e, admitted_half_open b' ts refl (omega arith))
  | inr e ↦ ground (arith, e, probes_counted b ts h)
]

reopens :
    (b : ModelBreaker) (now later status : ℕ)
    → b.state ≡ opened
    → b.open_until ≤ now
    → let b' = run b (asks now ∷ fails later status ∷ []) in
      (b'.state ≡ opened) × (b'.open_until ≡ later + cb_open_duration)
unfolding run step
reopens b now later status h d = ground arith

-- An upstream that answers its probe with any failure, a 429 or a connection error included, keeps
-- the breaker open for 60 seconds more from then on: all requests of that time are refused.
pub failed_probe_reopens :
    (b : ModelBreaker) (now later status : ℕ) (ts : List ℕ)
    → b.state ≡ opened
    → b.open_until ≤ now
    → All (λ t. t < later + cb_open_duration) ts
    → let b' = run b (asks now ∷ fails later status ∷ []) in
      (b'.state ≡ opened) × (admitted b' ts ≡ 0)
failed_probe_reopens b now later status ts h d a =
    let b' = run b (asks now ∷ fails later status ∷ []) in
    let e = reopens b now later status h d in
    (e.0, (refuses_until b' ts e.0 (subst (λ u. All (λ t. t < u) ts) (sym e.1) a)).0)
