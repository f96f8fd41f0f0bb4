-- ===== src/Gateway/Dispatch/Bounds.antt =====
-- src/gateway/handler/public.rs: how often and how long a request is tried.
use aqua_rust.Common.{
  ℕ, zero, suc, ◌+◌, ◌*◌, ◌≤◌, ◌<◌, subst, String, Bool, true, false, not, ◌&&◌, Option, none, List,
  [], ◌∷◌, arith, Bool-cases, Result-cases, inl, inr, ltb, leb, length,
}
use aqua_rust.Gateway.Floats.{Floats}
use aqua_rust.Gateway.Circuit.{CircuitBreaker}
use aqua_rust.Gateway.Scheduler.{Scheduler}
use aqua_rust.Gateway.Retry.{
  Request, Attempt, Outcome, take_attempts, max_attempts, max_total_wait_secs, wait_ms,
}
use aqua_rust.Gateway.Dispatch.{
  Desk, Turn, again, done, select_for, attempt, ask, allowed, turn, turns, start, dispatch,
  continue,
}
use aqua_rust.Gateway.Dispatch.Lines.{Leaves}
use aqua_rust.Gateway.Dispatch.Noted.{Has, use_key-Has, ask-tried}

-- A sleep that begins within the eight seconds ends within them.
pub wait_ends_in_time :
    (attempt elapsed_secs random : ℕ) (retry_after_ms : Option ℕ)
    → elapsed_secs < max_total_wait_secs
    → elapsed_secs * 1000 + wait_ms attempt elapsed_secs retry_after_ms random
      ≤ max_total_wait_secs * 1000
unfolding wait_ms
wait_ends_in_time attempt elapsed_secs random retry_after_ms l = omega arith

length-take_attempts : (n : ℕ) (xs : List Attempt) → length (take_attempts n xs) ≤ n
length-take_attempts zero xs = omega arith
length-take_attempts (suc n) [] = omega arith
length-take_attempts (suc n) (x ∷ xs) = omega (arith, length-take_attempts n xs)

module _ ⦃f : Floats⦄ where
  open f use {F}

  Within : ℕ → Desk → Type 0
  Within n d = length d.tried ≤ n

  Has-Within :
      (ts : List String) (n : ℕ) (t : Turn)
      → Leaves (Has ts) t
      → length ts ≤ n
      → Leaves (Within n) t
  unfolding Within
  Has-Within ts n (again d) h l = rw h l
  Has-Within ts n (done d outcome) h l = rw h l

  attempt-Within :
      (q : Request) (a : Attempt) (d : Desk)
      → Leaves (Within (suc (length d.tried))) (attempt q a d)
  unfolding attempt Within
  attempt-Within q a d = elim (Result-cases (select_for q a d.tried d.scheduler).1) [
    | inl (x, h) ↦ rw (h, attempt) (omega arith)
    | inr (k, h) ↦
        rw (h, attempt) (Has-Within (k.id ∷ d.tried) _ _ (use_key-Has q a k _) (omega arith))
  ]

  allowed-Within :
      (q : Request) (a : Attempt) (x : Desk × Bool)
      → Leaves (Within (suc (length x.0.tried))) (allowed q a x)
  unfolding allowed Within
  allowed-Within q a (d, true) = attempt-Within q a d
  allowed-Within q a (d, false) = omega arith

  turn-Within :
      (q : Request) (i : ℕ) (a : Attempt) (d : Desk)
      → Leaves (Within (suc (length d.tried))) (turn q i a d)
  unfolding turn Within
  turn-Within q i a d =
      let d' : Desk = record d { fast_retry = false; retry_after_ms = none } in
      elim (Bool-cases (ltb 0 i && not d.fast_retry && leb max_total_wait_secs a.elapsed_secs)) [
        | inl h ↦ rw h (omega arith)
        | inr h ↦ rw h (
            subst (λ ts. Leaves (Within (suc (length ts))) (allowed q a (ask q a d')))
              (ask-tried q a d') (allowed-Within q a (ask q a d')))
      ]

  Leaves-widen : (m n : ℕ) (t : Turn) → m ≤ n → Leaves (Within m) t → Leaves (Within n) t
  unfolding Within
  Leaves-widen m n (again d) l h = omega arith
  Leaves-widen m n (done d outcome) l h = omega arith

  continue-Within :
      (n m : ℕ) (next : Desk → Desk × Outcome) (t : Turn)
      → ((d : Desk) → length d.tried ≤ n → length (next d).0.tried ≤ m)
      → n ≤ m
      → Leaves (Within n) t
      → length (continue next t).0.tried ≤ m
  unfolding continue Within
  continue-Within n m next (again d) ih l h = ih d h
  continue-Within n m next (done d outcome) ih l h = omega arith

  turns-Within :
      (q : Request) (i : ℕ) (attempts : List Attempt) (n : ℕ) (d : Desk)
      → length d.tried ≤ n
      → length (turns q i attempts d).0.tried ≤ n + length attempts
  unfolding turns Within
  turns-Within q i [] n d l = omega arith
  turns-Within q i (a ∷ rest) n d l =
      continue-Within (suc n) (n + length (a ∷ rest)) (λ e. turns q (i + 1) rest e) (turn q i a d)
        (λ e h. omega (arith, turns-Within q (i + 1) rest (suc n) e h)) (omega arith)
        (Leaves-widen (suc (length d.tried)) (suc n) (turn q i a d) (omega arith)
          (turn-Within q i a d))

  -- A request takes keys at most as often as its channel allows: four times for a line, once for a
  -- special model, and else three times.
  pub dispatch_bounded :
      (q : Request) (attempts : List Attempt) (s : Scheduler F) (c : CircuitBreaker)
      → length (dispatch q attempts s c).0.tried ≤ max_attempts q
  unfolding dispatch
  dispatch_bounded q attempts s c =
      let xs = take_attempts (max_attempts q) attempts in
      omega (
        arith,
        turns-Within q 0 xs 0 (start s c) (omega arith),
        length-take_attempts (max_attempts q) attempts,
      )
