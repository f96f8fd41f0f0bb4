-- ===== src/Gateway/Dispatch/Lines.antt =====
-- src/gateway/handler/public.rs: what holds at every turn holds at the end of the loop, and a line
-- does not touch the breaker.
use aqua_rust.Common.{
  ℕ, ◌+◌, ◌≡◌, refl, String, Bool, true, false, not, ◌&&◌, ◌||◌, Option, none, List, [], ◌∷◌, arith,
  Bool-cases, Option-cases, Result-cases, inl, inr, ltb, leb,
}
use aqua_rust.Gateway.Floats.{Floats}
use aqua_rust.Gateway.Circuit.{CircuitBreaker}
use aqua_rust.Gateway.Scheduler.{Scheduler, UpstreamKey, begin_request, decrypt_upstream_key}
use aqua_rust.Gateway.Retry.{
  Request, Attempt, Answer, answered, no_connection, Outcome, is_quota_exhausted_str, should_retry,
  is_success, take_attempts, max_attempts, max_total_wait_secs,
}
use aqua_rust.Gateway.Dispatch.{
  Desk, Turn, again, done, select_for, failed, refuse, accept, settle, use_key, attempt, ask,
  allowed, turn, turns, dispatch, continue,
}

module _ ⦃f : Floats⦄ where
  open f use {F}

  module _ {ℓ} (P : Desk → Type ℓ) where
    -- The state that a turn leaves.
    abbrev pub Leaves : Turn → Type ℓ
    Leaves (again d) = P d
    Leaves (done d outcome) = P d

    continue-invariant :
        (next : Desk → Desk × Outcome) (t : Turn)
        → ((d : Desk) → P d → P (next d).0)
        → Leaves t
        → P (continue next t).0
    unfolding continue
    continue-invariant next (again d) ih p = ih d p
    continue-invariant next (done d outcome) ih p = p

    pub turns-invariant :
        (q : Request)
        → ((i : ℕ) (a : Attempt) (d : Desk) → P d → Leaves (turn q i a d))
        → (i : ℕ) (attempts : List Attempt) (d : Desk) → P d
        → P (turns q i attempts d).0
    unfolding turns
    turns-invariant q step i [] d p = p
    turns-invariant q step i (a ∷ rest) d p =
        continue-invariant (λ e. turns q (i + 1) rest e) (turn q i a d)
          (λ e pe. turns-invariant q step (i + 1) rest e pe) (step i a d p)

  module _ (c : CircuitBreaker) (q : Request) (line : q.line_mode ≡ true) where
    Untouched : Desk → Type 0
    Untouched d = d.breaker ≡ c

    failed-Untouched :
        (a : Attempt) (k : String) (status latency_ms : ℕ) (d : Desk)
        → Untouched d
        → Untouched (failed q a k status latency_ms d)
    unfolding failed Untouched
    failed-Untouched a k status latency_ms d e = ground arith

    refuse-Untouched :
        (a : Attempt) (k : String) (status latency_ms : ℕ) (text : String) (ra : Option ℕ)
        (d : Desk)
        → Untouched d
        → Leaves Untouched (refuse q a k status latency_ms text ra d)
    unfolding refuse Untouched
    refuse-Untouched a k status latency_ms text ra d e =
        let kept = failed-Untouched a k status latency_ms d e in
        elim (Bool-cases (is_quota_exhausted_str text && (q.line_mode || q.is_special))) [
          | inl h ↦ rw h kept
          | inr h ↦ rw h (elim (Bool-cases (not q.line_mode && not (should_retry status))) [
            | inl g ↦ rw g kept
            | inr g ↦ rw g kept
          ])
        ]

    settle-Untouched :
        (a : Attempt) (k : String) (answer : Answer) (d : Desk)
        → Untouched d
        → Leaves Untouched (settle q a k answer d)
    unfolding settle accept Untouched
    settle-Untouched a k (no_connection latency_ms) d e = failed-Untouched a k 0 latency_ms d e
    settle-Untouched a k (answered status latency_ms text ra) d e =
        elim (Bool-cases (is_success status)) [
          | inl h ↦ rw h (ground arith)
          | inr h ↦ rw h (refuse-Untouched a k status latency_ms text ra d e)
        ]

    use_key-Untouched :
        (a : Attempt) (k : UpstreamKey) (d : Desk)
        → Untouched d
        → Leaves Untouched (use_key q a k d)
    unfolding use_key Untouched
    use_key-Untouched a k d e =
        let begun = begin_request k.id a.selected_at d.scheduler in
        elim (Option-cases (decrypt_upstream_key a.decrypt a.selected_at k begun).1) [
          | inl h ↦ rw (h, use_key) e
          | inr (p, h) ↦
              rw (h, use_key)
                (elim (Bool-cases a.builds) [
                  | inl g ↦ simp g (settle-Untouched a k.id a.answer _ e)
                  | inr g ↦ simp g e
                ])
        ]

    attempt-Untouched : (a : Attempt) (d : Desk) → Untouched d → Leaves Untouched (attempt q a d)
    unfolding attempt Untouched
    attempt-Untouched a d e = elim (Result-cases (select_for q a d.tried d.scheduler).1) [
      | inl (x, h) ↦ rw (h, attempt) e
      | inr (k, h) ↦ rw (h, attempt) (use_key-Untouched a k _ e)
    ]

    allowed-Untouched :
        (a : Attempt) (x : Desk × Bool) → Untouched x.0 → Leaves Untouched (allowed q a x)
    unfolding allowed Untouched
    allowed-Untouched a (d, true) e = attempt-Untouched a d e
    allowed-Untouched a (d, false) e = e

    ask-Untouched : (a : Attempt) (d : Desk) → Untouched d → Untouched (ask q a d).0
    unfolding ask Untouched
    ask-Untouched a d e = ground arith

    turn-Untouched :
        (i : ℕ) (a : Attempt) (d : Desk) → Untouched d → Leaves Untouched (turn q i a d)
    unfolding turn Untouched
    turn-Untouched i a d e =
        elim (Bool-cases (ltb 0 i && not d.fast_retry && leb max_total_wait_secs a.elapsed_secs)) [
          | inl h ↦ rw h e
          | inr h ↦ rw h (
              allowed-Untouched a _
                (ask-Untouched a (record d { fast_retry = false; retry_after_ms = none }) e))
        ]

  -- A request of a line leaves every breaker as it was, whatever its keys answer.
  pub line_spares_breakers :
      (q : Request) (attempts : List Attempt) (s : Scheduler F) (c : CircuitBreaker)
      → q.line_mode ≡ true
      → (dispatch q attempts s c).0.breaker ≡ c
  unfolding dispatch Untouched
  line_spares_breakers q attempts s c line =
      turns-invariant (Untouched c q line) q (turn-Untouched c q line) 0
        (take_attempts (max_attempts q) attempts) _ refl
