-- ===== src/Gateway/Retry.antt =====
-- src/gateway/handler/public.rs: what the loop of `chat_completions` knows of a request, what a turn
-- of it meets, and the rules by which it retries.
use aqua_rust.Common.{
  ℕ, zero, suc, ◌+◌, ◌-◌, ◌*◌, ◌%◌, ◌^◌, min, max, String, Bool, ◌&&◌, ◌||◌, Option, List, [], ◌∷◌,
  any, leb, ◌==◌, if◌then◌else◌, unwrap_or, str_contains, to_lowercase,
}
use aqua_rust.Gateway.Scheduler.{UpstreamKey}
use aqua_rust.Gateway.Scheduler.Select.{SelectError}

abbrev pub max_upstream_attempts : ℕ
max_upstream_attempts = 3

abbrev pub line_max_upstream_attempts : ℕ
line_max_upstream_attempts = 4

abbrev pub retry_base_ms : ℕ
retry_base_ms = 500

abbrev pub retry_max_delay_ms : ℕ
retry_max_delay_ms = 3000

abbrev pub max_total_wait_secs : ℕ
max_total_wait_secs = 8

-- What the loop knows of the request: its channel, its model, the scope of its line.
pub record Request : Type 0 where
  pub line_mode : Bool
  pub is_acu : Bool
  pub is_special : Bool
  pub is_stream : Bool
  pub model : String
  pub line_scope : String

-- What the upstream gives: a status, a latency, the trimmed body and the seconds of `Retry-After`,
-- or no connection.
pub data Answer : Type 0 where
  answered : ℕ → ℕ → String → Option ℕ → Answer
  no_connection : ℕ → Answer

-- What one turn of the loop meets. `elapsed_secs` counts from the start of the loop; the clock is
-- read for the breaker, for the selection and after the answer.
pub record Attempt : Type 0 where
  pub elapsed_secs : ℕ
  pub asked_at : ℕ
  pub selected_at : ℕ
  pub answered_at : ℕ
  pub fetched : Option (List UpstreamKey)
  pub decrypt : String → Option String
  pub builds : Bool
  pub answer : Answer

-- The last error. Of the upstream's own errors it has the status and the text.
pub data Failure : Type 0 where
  no_key waited_out circuit_open no_plain_key no_request no_answer : Failure
  no_selection : SelectError → Failure
  upstream_error : ℕ → String → Failure

unfoldable pub should_retry : ℕ → Bool
should_retry status =
    (status == 429) || (status == 500) || (status == 502) || (status == 503) || (status == 504)

abbrev pub quota_words : List String
quota_words =
    "quota" ∷ "insufficient" ∷ "余额" ∷ "额度" ∷ "credit" ∷ "balance" ∷ "exhausted" ∷ "token remain"
    ∷ "need quota" ∷ "pre_consume" ∷ []

unfoldable pub is_quota_exhausted_str : String → Bool
is_quota_exhausted_str s = any (str_contains (to_lowercase s)) quota_words

-- The sleep before a further turn, in milliseconds; `random` is the number that is drawn.
unfoldable pub wait_ms : ℕ → ℕ → Option ℕ → ℕ → ℕ
wait_ms attempt elapsed_secs retry_after_ms random =
    let cap = min retry_max_delay_ms (retry_base_ms * 2 ^ min attempt 4) in
    min (unwrap_or retry_after_ms (random % (cap + 1)))
      (max ((max_total_wait_secs - elapsed_secs) * 1000) 100)

-- How the loop ends: a key's response is passed on, an error of the upstream is passed on, the
-- credit is used up (402), or nothing served (503).
pub data Outcome : Type 0 where
  served : String → Outcome
  passed : ℕ → Outcome
  quota_exhausted : Outcome
  unavailable : Failure → Outcome

unfoldable pub max_attempts : Request → ℕ
max_attempts q =
    if q.line_mode
    then line_max_upstream_attempts
    else if q.is_special
    then 1
    else max_upstream_attempts

abbrev pub is_success : ℕ → Bool
is_success status = leb 200 status && leb status 299

-- The turns of the loop are as many as the attempts.
abbrev pub take_attempts : ℕ → List Attempt → List Attempt
take_attempts zero xs = []
take_attempts (suc n) [] = []
take_attempts (suc n) (a ∷ xs) = a ∷ take_attempts n xs
