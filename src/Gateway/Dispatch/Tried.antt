-- ===== src/Gateway/Dispatch/Tried.antt =====
-- src/gateway/handler/public.rs: the keys that a request of the general channel tries.
use aqua_rust.Common.{
  ℕ, ◌+◌, ◌++◌, All, ◌⊎◌, Result, if◌then◌else◌, ◌≡◌, refl, sym, subst, String, Bool, true, false,
  not, ◌&&◌, none, List, [], ◌∷◌, ok, err, arith, Bool-cases, Result-cases, inl, inr, ltb, leb,
}
use aqua_rust.Gateway.Floats.{Floats}
use aqua_rust.Gateway.Circuit.{CircuitBreaker}
use aqua_rust.Gateway.Scheduler.{Scheduler, UpstreamKey}
use aqua_rust.Gateway.Scheduler.Select.{SelectError, is_tried}
use aqua_rust.Gateway.Retry.{Request, Attempt, take_attempts, max_attempts, max_total_wait_secs}
use aqua_rust.Gateway.Dispatch.{
  Desk, Turn, again, done, select_for, attempt, ask, allowed, turn, start,
}
use aqua_rust.Gateway.Dispatch.Lines.{Leaves}
use aqua_rust.Gateway.Dispatch.Noted.{
  Has, IsGeneral, ask-tried, select_for-general, select_key-untried, use_key-Has,
}

-- No key stands twice in the list.
abbrev pub NoRepeats : List String → Type 0
NoRepeats [] = Unit
NoRepeats (x ∷ xs) = (is_tried xs x ≡ false) × NoRepeats xs

module _ ⦃f : Floats⦄ where
  open f use {F}

  -- The keys that requests are begun with, in their order: that of a selection, of a turn and of all
  -- turns. What the code keeps of them does not count, but for what it selects by.
  selected : Result SelectError UpstreamKey → List String
  selected (err e) = []
  selected (ok k) = k.id ∷ []

  attempt_uses : Request → Attempt → Desk → List String
  unfolding selected
  attempt_uses q a d = selected (select_for q a d.tried d.scheduler).1

  allowed_uses : Request → Attempt → Desk × Bool → List String
  unfolding attempt_uses
  allowed_uses q a (d, true) = attempt_uses q a d
  allowed_uses q a (d, false) = []

  turn_uses : Request → ℕ → Attempt → Desk → List String
  unfolding allowed_uses
  turn_uses q n a d =
      if ltb 0 n && not d.fast_retry && leb max_total_wait_secs a.elapsed_secs
      then []
      else allowed_uses q a (ask q a (record d { fast_retry = false; retry_after_ms = none }))

  abbrev uses_after : (Desk → List String) → Turn → List String
  uses_after next (again d) = next d
  uses_after next (done d outcome) = []

  unfoldable pub uses : Request → ℕ → List Attempt → Desk → List String
  unfolding turn_uses
  uses q n [] d = []
  uses q n (a ∷ rest) d =
      turn_uses q n a d ++ uses_after (λ e. uses q (n + 1) rest e) (turn q n a d)

  unfoldable pub dispatch_uses : Request → List Attempt → Scheduler F → CircuitBreaker → List String
  unfolding uses
  dispatch_uses q attempts s c = uses q 0 (take_attempts (max_attempts q) attempts) (start s c)

  -- Nothing is used, or one key that is not among `ts`; the turn leaves it with them.
  IsFresh : List String → List String → Type 0
  IsFresh ts us = (us ≡ []) ⊎ ((k : String) × (us ≡ k ∷ []) × (is_tried ts k ≡ false))

  abbrev Notes : List String → List String → Turn → Type 0
  Notes ts us t = IsFresh ts us × Leaves (Has (us ++ ts)) t

  attempt-Notes :
      (q : Request) (a : Attempt) (d : Desk)
      → IsGeneral q
      → Notes d.tried (attempt_uses q a d) (attempt q a d)
  unfolding attempt attempt_uses selected IsFresh
  attempt-Notes q a d g = elim (Result-cases (select_for q a d.tried d.scheduler).1) [
    | inl (x, h) ↦ rw (h, attempt, attempt_uses) (inl refl, refl)
    | inr (k, h) ↦
        rw (h, attempt, attempt_uses)
          (
            inr (
              k.id,
              refl,
              select_key-untried a.selected_at a.fetched q.model d.tried d.scheduler k
                  (subst (λ x. x.1 ≡ ok k) (select_for-general q a d.tried d.scheduler g) h),
            ),
            use_key-Has q a k _,
          )
  ]

  allowed-Notes :
      (q : Request) (a : Attempt) (x : Desk × Bool)
      → IsGeneral q
      → Notes x.0.tried (allowed_uses q a x) (allowed q a x)
  unfolding allowed allowed_uses IsFresh
  allowed-Notes q a (d, true) g = attempt-Notes q a d g
  allowed-Notes q a (d, false) g = (inl refl, refl)

  turn-Notes :
      (q : Request) (i : ℕ) (a : Attempt) (d : Desk)
      → IsGeneral q
      → Notes d.tried (turn_uses q i a d) (turn q i a d)
  unfolding turn turn_uses IsFresh
  turn-Notes q i a d g =
      let d' : Desk = record d { fast_retry = false; retry_after_ms = none } in
      elim (Bool-cases (ltb 0 i && not d.fast_retry && leb max_total_wait_secs a.elapsed_secs)) [
        | inl h ↦ rw (h, turn, turn_uses) (inl refl, refl)
        | inr h ↦
            rw (h, turn, turn_uses)
              (subst (λ ts. Notes ts (allowed_uses q a (ask q a d')) (allowed q a (ask q a d')))
                (ask-tried q a d') (allowed-Notes q a (ask q a d') g))
      ]

  -- Keys without repeats, none of them among `ts`.
  abbrev Apart : List String → List String → Type 0
  Apart ts us = NoRepeats us × All (λ x. is_tried ts x ≡ false) us

  not_tried-cons :
      (k : String) (ts us : List String)
      → All (λ x. is_tried (k ∷ ts) x ≡ false) us
      → (is_tried us k ≡ false) × All (λ x. is_tried ts x ≡ false) us
  not_tried-cons k ts [] h = (refl, tt)
  not_tried-cons k ts (x ∷ us) h =
      let (a, b) = not_tried-cons k ts us h.1 in (ground (arith, a, h.0), (ground (arith, h.0), b))

  Apart-append :
      (ts us vs : List String) → IsFresh ts us → Apart (us ++ ts) vs → Apart ts (us ++ vs)
  unfolding IsFresh
  Apart-append ts us vs (inl e) h =
      subst (λ us. Apart (us ++ ts) vs → Apart ts (us ++ vs)) (sym e) (λ g. g) h
  Apart-append ts us vs (inr (k, e, u)) h =
      subst (λ us. Apart (us ++ ts) vs → Apart ts (us ++ vs)) (sym e)
        (λ (r, t). let (apart, other) = not_tried-cons k ts vs t in ((apart, r), (u, other))) h

  uses_after-Apart :
      (next : Desk → List String) (t : Turn) (ts : List String)
      → ((d : Desk) → Apart d.tried (next d))
      → Leaves (Has ts) t
      → Apart ts (uses_after next t)
  uses_after-Apart next (again d) ts f h = subst (λ ts. Apart ts (next d)) h (f d)
  uses_after-Apart next (done d outcome) ts f h = (tt, tt)

  uses-Apart :
      (q : Request) (i : ℕ) (attempts : List Attempt) (d : Desk)
      → IsGeneral q
      → Apart d.tried (uses q i attempts d)
  unfolding uses
  uses-Apart q i [] d g = (tt, tt)
  uses-Apart q i (a ∷ rest) d g =
      let (fresh, noted) = turn-Notes q i a d g in
      Apart-append d.tried (turn_uses q i a d) _ fresh (
        uses_after-Apart (λ e. uses q (i + 1) rest e) (turn q i a d) (turn_uses q i a d ++ d.tried)
          (λ e. uses-Apart q (i + 1) rest e g) noted)

  -- A request of the general channel, which is no line's and of no channel with a key of its own,
  -- is begun with no key twice: in each of its turns `select_for` gives a key of which the turns
  -- before have made no use.
  pub tries_no_key_twice :
      (q : Request) (attempts : List Attempt) (s : Scheduler F) (c : CircuitBreaker)
      → IsGeneral q
      → NoRepeats (dispatch_uses q attempts s c)
  unfolding dispatch_uses
  tries_no_key_twice q attempts s c g =
      (uses-Apart q 0 (take_attempts (max_attempts q) attempts) (start s c) g).0
