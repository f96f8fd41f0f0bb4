-- ===== src/Gateway/Dispatch.antt =====
-- src/gateway/handler/public.rs: the loop of `chat_completions` that selects a key, sends the
-- request and records what comes of it, and the ends of the two kinds of response.
pub mod Slots
pub mod Noted
pub mod Tried
pub mod Bounds
pub mod Lines
mod Tests
use aqua_rust.Common.{
  ℕ, zero, suc, ◌+◌, ◌-◌, ◌*◌, ◌%◌, ◌^◌, min, max, String, Bool, true, false, not, ◌&&◌, ◌||◌,
  Option, none, some, List, [], ◌∷◌, Result, ok, err, any, ltb, leb, ◌==◌, if◌then◌else◌, unwrap_or,
  str_contains, to_lowercase,
}
use aqua_rust.Gateway.Retry.{
  Answer, Attempt, Failure, Outcome, Request, answered, circuit_open, is_quota_exhausted_str,
  is_success, line_max_upstream_attempts, max_attempts, max_total_wait_secs, max_upstream_attempts,
  no_answer, no_connection, no_key, no_plain_key, no_request, no_selection, passed, quota_exhausted,
  quota_words, retry_base_ms, retry_max_delay_ms, served, should_retry, take_attempts, unavailable,
  upstream_error, wait_ms, waited_out,
}
use aqua_rust.Gateway.Floats.{Floats}
use aqua_rust.Gateway.Circuit.{CircuitBreaker, can_request, record_success, record_failure}
use aqua_rust.Gateway.Scheduler.{
  Scheduler, UpstreamKey, begin_request, end_request, decrypt_upstream_key,
}
use aqua_rust.Gateway.Scheduler.Select.{Selection, select_key, SelectError}
use aqua_rust.Gateway.Scheduler.Select.Fixed.{select_line_key, select_acu_key, select_special_key}
use aqua_rust.Gateway.Scheduler.Record.{record_response}

module _ ⦃f : Floats⦄ where
  open f use {F}

  -- What the loop changes: the shared scheduler and breaker, and its own variables.
  pub record Desk : Type 0 where
    pub scheduler : Scheduler F
    pub breaker : CircuitBreaker
    pub tried : List String
    pub last_err : Failure
    pub fast_retry : Bool
    pub retry_after_ms : Option ℕ

  -- A turn goes on to the next one or ends the loop.
  pub data Turn : Type 0 where
    again : Desk → Turn
    done : Desk → Outcome → Turn

  -- After the loop. Of the texts that the last error can have, those that are not the upstream's hold
  -- no word of exhausted credit where it matters, unless a key's or a model's name does.
  unfoldable pub give_up : Request → Failure → Outcome
  give_up q (upstream_error status text) =
      if is_quota_exhausted_str text && (q.line_mode || q.is_special)
      then quota_exhausted
      else unavailable (upstream_error status text)
  give_up q e = unavailable e

  unfoldable pub select_for : Request → Attempt → List String → Scheduler F → Selection
  select_for q a tried s =
      if q.line_mode
      then select_line_key a.selected_at a.fetched q.line_scope s
      else if q.is_acu
      then select_acu_key a.selected_at a.fetched s
      else if q.is_special
      then select_special_key a.selected_at a.fetched q.model s
      else select_key a.selected_at a.fetched q.model tried s

  -- A failure with a status of the upstream, 0 where there is none.
  unfoldable pub failed : Request → Attempt → String → ℕ → ℕ → Desk → Desk
  failed q a id status latency_ms d = record d {
    breaker =
        if q.line_mode then d.breaker else record_failure q.model a.answered_at status d.breaker;
    scheduler =
        end_request id (record_response id false status latency_ms a.answered_at d.scheduler);
  }

  unfoldable pub retry_after_of : ℕ → Option ℕ → Option ℕ → Option ℕ
  retry_after_of status (some ra) before =
      if status == 429 then some (min (ra * 1000) (retry_max_delay_ms * 4)) else before
  retry_after_of status none before = before

  -- An answer that is no success.
  unfoldable pub refuse : Request → Attempt → String → ℕ → ℕ → String → Option ℕ → Desk → Turn
  refuse q a id status latency_ms text ra d =
      let d' : Desk = record (failed q a id status latency_ms d) {
        retry_after_ms = retry_after_of status ra d.retry_after_ms;
      } in
      if is_quota_exhausted_str text && (q.line_mode || q.is_special)
      then done d' quota_exhausted
      else if not q.line_mode && not (should_retry status)
      then done (record d' { last_err = upstream_error status text }) (passed status)
      else again (record d' { last_err = upstream_error status text })

  unfoldable pub accept : Request → Attempt → String → ℕ → ℕ → Desk → Turn
  accept q a id status latency_ms d =
      done
        (record d {
          breaker =
              if not q.line_mode && not q.is_stream
              then record_success q.model d.breaker
              else d.breaker;
          scheduler = record_response id true status latency_ms a.answered_at d.scheduler;
        })
        (served id)

  unfoldable pub settle : Request → Attempt → String → Answer → Desk → Turn
  settle q a id (answered status latency_ms text ra) d =
      if is_success status
      then accept q a id status latency_ms d
      else refuse q a id status latency_ms text ra d
  settle q a id (no_connection latency_ms) d =
      again (record (failed q a id 0 latency_ms d) { last_err = no_answer; fast_retry = true })

  -- The turn from the selected key on.
  unfoldable pub use_key : Request → Attempt → UpstreamKey → Desk → Turn
  use_key q a k d =
      let begun = begin_request k.id a.selected_at d.scheduler in
      let (s, plain) = decrypt_upstream_key a.decrypt a.selected_at k begun in
      let d' : Desk = record d { scheduler = s; tried = k.id ∷ d.tried } in
      elim plain [
        | none ↦ again (record d' { scheduler = end_request k.id s; last_err = no_plain_key })
        | some p ↦
            if a.builds
            then settle q a k.id a.answer d'
            else again (record d' { scheduler = end_request k.id s; last_err = no_request })
      ]

  -- The turn from the selection on.
  unfoldable pub attempt : Request → Attempt → Desk → Turn
  attempt q a d =
      let (s, selected) = select_for q a d.tried d.scheduler in
      elim selected [
        | err e ↦ again (record d { scheduler = s; last_err = no_selection e })
        | ok k ↦ use_key q a k (record d { scheduler = s })
      ]

  -- The breaker is asked for all but the lines.
  unfoldable pub ask : Request → Attempt → Desk → Desk × Bool
  ask q a d = if q.line_mode then (d, true) else (
    record d { breaker = (can_request q.model a.asked_at d.breaker).0 },
    (can_request q.model a.asked_at d.breaker).1,
  )

  unfoldable pub allowed : Request → Attempt → Desk × Bool → Turn
  allowed q a (d, true) = attempt q a d
  allowed q a (d, false) = done (record d { last_err = circuit_open }) (give_up q circuit_open)

  -- The body of the loop, for the `n`-th time.
  unfoldable pub turn : Request → ℕ → Attempt → Desk → Turn
  turn q n a d =
      if ltb 0 n && not d.fast_retry && leb max_total_wait_secs a.elapsed_secs
      then done (record d { last_err = waited_out }) (give_up q waited_out)
      else allowed q a (ask q a (record d { fast_retry = false; retry_after_ms = none }))

  unfoldable pub continue : (Desk → Desk × Outcome) → Turn → Desk × Outcome
  continue next (again d) = next d
  continue next (done d outcome) = (d, outcome)

  -- The turns from the `n`-th on.
  unfoldable pub turns : Request → ℕ → List Attempt → Desk → Desk × Outcome
  turns q n [] d = (d, give_up q d.last_err)
  turns q n (a ∷ rest) d = continue (λ e. turns q (n + 1) rest e) (turn q n a d)

  abbrev pub start : Scheduler F → CircuitBreaker → Desk
  start s c = record {
    scheduler = s;
    breaker = c;
    tried = [];
    last_err = no_key;
    fast_retry = false;
    retry_after_ms = none;
  }

  unfoldable pub dispatch : Request → List Attempt → Scheduler F → CircuitBreaker → Desk × Outcome
  dispatch q attempts s c = turns q 0 (take_attempts (max_attempts q) attempts) (start s c)

  -- The end of a stream, and of a response that is read whole.
  unfoldable pub finish_stream :
      Bool → String → String → Scheduler F → CircuitBreaker → Scheduler F × CircuitBreaker
  finish_stream completed model id s c =
      (end_request id s, if completed then record_success model c else c)

  unfoldable pub finish_whole : String → Scheduler F → Scheduler F
  finish_whole id s = end_request id s
