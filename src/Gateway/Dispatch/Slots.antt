-- ===== src/Gateway/Dispatch/Slots.antt =====
-- src/gateway/handler/public.rs: the slots of the keys over the loop of `chat_completions`.
use aqua_rust.Common.{
  ℕ, ◌+◌, ◌<◌, ◌≡◌, refl, ◌∙◌, sym, ap, String, Bool, true, false, not, ◌&&◌, ◌||◌, Option, none,
  List, [], ◌∷◌, is_same, if◌then◌else◌, arith, Bool-cases, Option-cases, Result-cases, inl, inr,
  ltb, leb,
}
use aqua_rust.Gateway.Floats.{Floats}
use aqua_rust.Gateway.Circuit.{CircuitBreaker}
use aqua_rust.Gateway.Scheduler.{
  Scheduler, UpstreamKey, begin_request, end_request, decrypt_upstream_key,
}
use aqua_rust.Gateway.Scheduler.Inflight.{inflight, begin_inflight, end_inflight, decrypt-inflight}
use aqua_rust.Gateway.Scheduler.Select.Slots.{
  select_key-inflight, select_line_key-inflight, select_special_key-inflight,
  select_acu_key-inflight,
}
use aqua_rust.Gateway.Scheduler.Record.{record_response}
use aqua_rust.Gateway.Scheduler.Record.Slots.{record_response-inflight}
use aqua_rust.Gateway.Retry.{
  Request, Attempt, Answer, answered, no_connection, Outcome, served, passed, quota_exhausted,
  unavailable, is_quota_exhausted_str, should_retry, is_success, Failure, upstream_error, no_key,
  waited_out, circuit_open, no_plain_key, no_request, no_answer, no_selection, take_attempts,
  max_attempts, max_total_wait_secs,
}
use aqua_rust.Gateway.Dispatch.{
  Desk, Turn, again, done, select_for, failed, refuse, accept, settle, use_key, attempt, ask,
  allowed, turn, turns, dispatch, continue, finish_stream, finish_whole, give_up,
}

module _ ⦃f : Floats⦄ where
  open f use {F}

  module _ (id : String) (n : ℕ) where
    -- The slots while a key is at work.
    abbrev pub with_slot : String → ℕ
    with_slot k = if is_same k id then n + 1 else n

    -- The slots after an outcome: the served key holds one.
    abbrev pub after : Outcome → ℕ
    after (served k) = with_slot k
    after (passed status) = n
    after quota_exhausted = n
    after (unavailable e) = n

    Kept : Turn → Type 0
    Kept (again d) = inflight id d.scheduler ≡ n
    Kept (done d outcome) = inflight id d.scheduler ≡ after outcome

    ended :
        (k : String) (s : Scheduler F)
        → inflight id s ≡ with_slot k
        → inflight id (end_request k s) ≡ n
    ended k s e = ground (arith, end_inflight k id s)

    failed-ended :
        (q : Request) (a : Attempt) (k : String) (status latency_ms : ℕ) (d : Desk)
        → inflight id d.scheduler ≡ with_slot k
        → inflight id (failed q a k status latency_ms d).scheduler ≡ n
    unfolding failed
    failed-ended q a k status latency_ms d e =
        ended k (record_response k false status latency_ms a.answered_at d.scheduler)
          (record_response-inflight id k false status latency_ms a.answered_at d.scheduler ∙ e)

    refuse-Kept :
        (q : Request) (a : Attempt) (k : String) (status latency_ms : ℕ) (text : String)
        (ra : Option ℕ) (d : Desk)
        → inflight id d.scheduler ≡ with_slot k
        → Kept (refuse q a k status latency_ms text ra d)
    unfolding refuse Kept
    refuse-Kept q a k status latency_ms text ra d e =
        let freed = failed-ended q a k status latency_ms d e in
        elim (Bool-cases (is_quota_exhausted_str text && (q.line_mode || q.is_special))) [
          | inl h ↦ rw h freed
          | inr h ↦ rw h (elim (Bool-cases (not q.line_mode && not (should_retry status))) [
            | inl g ↦ rw g freed
            | inr g ↦ rw g freed
          ])
        ]

    settle-Kept :
        (q : Request) (a : Attempt) (k : String) (answer : Answer) (d : Desk)
        → inflight id d.scheduler ≡ with_slot k
        → Kept (settle q a k answer d)
    unfolding settle accept Kept
    settle-Kept q a k (no_connection latency_ms) d e = failed-ended q a k 0 latency_ms d e
    settle-Kept q a k (answered status latency_ms text ra) d e =
        elim (Bool-cases (is_success status)) [
          | inl h ↦
              rw h
                (record_response-inflight id k true status latency_ms a.answered_at d.scheduler ∙ e)
          | inr h ↦ rw h (refuse-Kept q a k status latency_ms text ra d e)
        ]

    use_key-Kept :
        (q : Request) (a : Attempt) (k : UpstreamKey) (d : Desk)
        → n < 1000000
        → inflight id d.scheduler ≡ n
        → Kept (use_key q a k d)
    unfolding use_key Kept
    use_key-Kept q a k d l e =
        let begun = begin_request k.id a.selected_at d.scheduler in
        let held : inflight id begun ≡ with_slot k.id =
          ground (arith, begin_inflight k.id id a.selected_at d.scheduler) in
        let kept = decrypt-inflight id a.decrypt a.selected_at k begun ∙ held in
        elim (Option-cases (decrypt_upstream_key a.decrypt a.selected_at k begun).1) [
          | inl h ↦ rw (h, use_key) (ended k.id _ kept)
          | inr (p, h) ↦
              rw (h, use_key)
                (elim (Bool-cases a.builds) [
                  | inl g ↦ simp g (settle-Kept q a k.id a.answer _ kept)
                  | inr g ↦ simp g (ended k.id _ kept)
                ])
        ]

    select_for-inflight :
        (q : Request) (a : Attempt) (tried : List String) (s : Scheduler F)
        → inflight id (select_for q a tried s).0 ≡ inflight id s
    unfolding select_for
    select_for-inflight q a tried s = elim (Bool-cases q.line_mode) [
      | inl h ↦ rw h (select_line_key-inflight id a.selected_at a.fetched q.line_scope s)
      | inr h ↦ rw h (elim (Bool-cases q.is_acu) [
        | inl g ↦ rw g (select_acu_key-inflight id a.selected_at a.fetched s)
        | inr g ↦ rw g (elim (Bool-cases q.is_special) [
          | inl k ↦ rw k (select_special_key-inflight id a.selected_at a.fetched q.model s)
          | inr k ↦ rw k (select_key-inflight id a.selected_at a.fetched q.model tried s)
        ])
      ])
    ]

    attempt-Kept :
        (q : Request) (a : Attempt) (d : Desk)
        → n < 1000000
        → inflight id d.scheduler ≡ n
        → Kept (attempt q a d)
    unfolding attempt Kept
    attempt-Kept q a d l e =
        let kept = select_for-inflight q a d.tried d.scheduler ∙ e in
        elim (Result-cases (select_for q a d.tried d.scheduler).1) [
          | inl (x, h) ↦ rw (h, attempt) kept
          | inr (k, h) ↦
              rw (h, attempt)
                (use_key-Kept q a k
                  (record d { scheduler = (select_for q a d.tried d.scheduler).0 }) l kept)
        ]

    give_up-after : (q : Request) (e : Failure) → after (give_up q e) ≡ n
    unfolding give_up
    give_up-after q (upstream_error status text) =
        elim (Bool-cases (is_quota_exhausted_str text && (q.line_mode || q.is_special))) [
          | inl h ↦ rw h refl
          | inr h ↦ rw h refl
        ]
    give_up-after q no_key = refl
    give_up-after q waited_out = refl
    give_up-after q circuit_open = refl
    give_up-after q no_plain_key = refl
    give_up-after q no_request = refl
    give_up-after q no_answer = refl
    give_up-after q (no_selection e) = refl

    allowed-Kept :
        (q : Request) (a : Attempt) (d : Desk) (b : Bool)
        → n < 1000000
        → inflight id d.scheduler ≡ n
        → Kept (allowed q a (d, b))
    unfolding allowed Kept
    allowed-Kept q a d true l e = attempt-Kept q a d l e
    allowed-Kept q a d false l e = e ∙ sym (give_up-after q circuit_open)

    ask-scheduler : (q : Request) (a : Attempt) (d : Desk) → (ask q a d).0.scheduler ≡ d.scheduler
    unfolding ask
    ask-scheduler q a d = elim (Bool-cases q.line_mode) [ inl h ↦ rw h refl | inr h ↦ rw h refl ]

    turn-Kept :
        (q : Request) (i : ℕ) (a : Attempt) (d : Desk)
        → n < 1000000
        → inflight id d.scheduler ≡ n
        → Kept (turn q i a d)
    unfolding turn Kept
    turn-Kept q i a d l e =
        let d' : Desk = record d { fast_retry = false; retry_after_ms = none } in
        elim (Bool-cases (ltb 0 i && not d.fast_retry && leb max_total_wait_secs a.elapsed_secs)) [
          | inl h ↦ rw h (e ∙ sym (give_up-after q waited_out))
          | inr h ↦ rw h (
              allowed-Kept q a (ask q a d').0 (ask q a d').1 l
                (ap (inflight id) (ask-scheduler q a d') ∙ e))
        ]

    After : Desk × Outcome → Type 0
    After (d, outcome) = inflight id d.scheduler ≡ after outcome

    continue-After :
        (next : Desk → Desk × Outcome) (t : Turn)
        → ((d : Desk) → inflight id d.scheduler ≡ n → After (next d))
        → Kept t
        → After (continue next t)
    unfolding continue After Kept
    continue-After next (again d) ih k = ih d k
    continue-After next (done d outcome) ih k = k

    turns-After :
        (q : Request) (i : ℕ) (attempts : List Attempt) (d : Desk)
        → n < 1000000
        → inflight id d.scheduler ≡ n
        → After (turns q i attempts d)
    unfolding turns After
    turns-After q i [] d l e = e ∙ sym (give_up-after q d.last_err)
    turns-After q i (a ∷ rest) d l e =
        continue-After (λ e. turns q (i + 1) rest e) (turn q i a d)
          (λ d' e'. turns-After q (i + 1) rest d' l e') (turn-Kept q i a d l e)

  -- When the loop ends, every key has as many slots taken as before, but for the key whose response
  -- is passed on, which has one more: the end of that response gives it back. Fewer than a million
  -- slots of the key are to be taken beforehand.
  pub dispatch_slots :
      (id : String) (q : Request) (attempts : List Attempt) (s : Scheduler F) (c : CircuitBreaker)
      → inflight id s < 1000000
      → inflight id (dispatch q attempts s c).0.scheduler
        ≡ after id (inflight id s) (dispatch q attempts s c).1
  unfolding dispatch After
  dispatch_slots id q attempts s c l =
      turns-After id (inflight id s) q 0 (take_attempts (max_attempts q) attempts) _ l refl

  -- The end of the response, streamed or read whole, gives back the slot of the key that served it,
  -- so that every key of which fewer than a million slots are taken then has as many taken as before
  -- the request.
  pub response_slots :
      (id k : String) (completed : Bool) (q : Request) (attempts : List Attempt) (s : Scheduler F)
      (c : CircuitBreaker)
      → inflight id s < 1000000
      → (dispatch q attempts s c).1 ≡ served k
      → let d = (dispatch q attempts s c).0 in
        (inflight id (finish_stream completed q.model k d.scheduler d.breaker).0 ≡ inflight id s)
        × (inflight id (finish_whole k d.scheduler) ≡ inflight id s)
  unfolding finish_stream finish_whole
  response_slots id k completed q attempts s c l e =
      let d = (dispatch q attempts s c).0 in
      let freed =
        ended id (inflight id s) k d.scheduler
          (dispatch_slots id q attempts s c l ∙ ap (after id (inflight id s)) e) in
      (freed, freed)
