-- ===== src/Gateway/Circuit/Trips.antt =====
-- When the breaker opens: ten 5xx failures, no fewer, and ten in one window are enough.
use aqua_rust.Common.{
  ℕ, zero, suc, ◌+◌, ◌-◌, ◌≤◌, ◌<◌, ◌≡◌, refl, Bool, true, false, List, [], ◌∷◌, arith, map, length,
  All, if◌then◌else◌, ap,
}
use aqua_rust.Gateway.Circuit.{
  ModelBreaker, State, closed, opened, step, run, Event, fails, is_5xx, cb_window_duration,
  cb_open_duration,
}

abbrev is_server_failure : Event → Bool
is_server_failure (fails now status) = is_5xx status
is_server_failure _ = false

abbrev pub server_failures : List Event → ℕ
server_failures [] = 0
server_failures (e ∷ es) = (if is_server_failure e then 1 else 0) + server_failures es

-- The 5xx failures that a state stands for.
abbrev spent : State → ℕ → ℕ
spent closed n = n
spent _ n = 10

abbrev pub failure : ℕ × ℕ → Event
failure (now, status) = fails now status

-- A 5xx failure at a time within the window that began at `w`.
abbrev pub InWindow : ℕ → ℕ × ℕ → Type 0
InWindow w (now, status) = (now - w ≤ cb_window_duration) × (is_5xx status ≡ true)

counts :
    (b : ModelBreaker) (now status n : ℕ)
    → b.state ≡ closed
    → b.fail5xx ≡ n
    → n < 9
    → InWindow b.window_start (now, status)
    → (step b (fails now status)).0 ≡ record b { fail5xx = n + 1 }
unfolding step
counts b now status n c f h i = ground arith

opens :
    (b : ModelBreaker) (now status : ℕ)
    → b.state ≡ closed
    → b.fail5xx ≡ 9
    → InWindow b.window_start (now, status)
    → (step b (fails now status)).0
      ≡ record b { state = opened; fail5xx = 10; open_until = now + cb_open_duration }
unfolding step
opens b now status c f i = ground arith

trips_from :
    (k n : ℕ) (b : ModelBreaker) (fs : List (ℕ × ℕ))
    → length fs ≡ suc k
    → n + k ≡ 9
    → b.state ≡ closed
    → b.fail5xx ≡ n
    → All (InWindow b.window_start) fs
    → (run b (map failure fs)).state ≡ opened
unfolding run
trips_from k n b [] l s c f h = absurd (omega arith)
trips_from zero n b ((now, status) ∷ []) l s c f h =
    ap (λ (x : ModelBreaker). x.state) (opens b now status c (omega arith) h.0)
trips_from zero n b (x ∷ y ∷ fs) l s c f h = absurd (omega arith)
trips_from (suc k) n b ((now, status) ∷ fs) l s c f h =
    rw (counts b now status n c f (omega arith) h.0, run)
      (trips_from k (n + 1) (record b { fail5xx = n + 1 }) fs (omega arith) (omega arith) c refl
        h.1)

-- Ten 5xx failures of a closed breaker that has counted none, all within its 60 second window,
-- open it.
pub trips :
    (b : ModelBreaker) (fs : List (ℕ × ℕ))
    → b.state ≡ closed
    → b.fail5xx ≡ 0
    → length fs ≡ 10
    → All (InWindow b.window_start) fs
    → (run b (map failure fs)).state ≡ opened
trips b fs c f l h = trips_from 9 0 b fs l (omega arith) c f h
