-- ===== src/Gateway/Scheduler/Record/Slots.antt =====
-- src/gateway/scheduler.rs: recording a response leaves the slots of every key as they are.
use aqua_rust.Common.{ℕ, ◌≡◌, refl, ◌∙◌, String, Bool, true, false, arith}
use aqua_rust.Gateway.Floats.{Floats}
use aqua_rust.Gateway.Scheduler.{Scheduler, BucketState, bucket_of}
use aqua_rust.Gateway.Scheduler.Inflight.{inflight, rebucketed}
use aqua_rust.Gateway.Scheduler.Record.{
  record_response, account, update_health, warm_up, reward, penalise, answer_of, slide,
  count_request, count_latency, Answer, limited, forbidden, server_error, no_connection,
  other_error,
}

module _ ⦃f : Floats⦄ where
  open f use {F}

  slide-inflight : (now : ℕ) (b : BucketState F) → (slide now b).inflight ≡ b.inflight
  unfolding slide
  slide-inflight now b = ground arith

  penalise-inflight :
      (a : Answer) (now : ℕ) (b : BucketState F) → (penalise a now b).inflight ≡ b.inflight
  unfolding penalise
  penalise-inflight limited now b = refl
  penalise-inflight forbidden now b = refl
  penalise-inflight server_error now b = refl
  penalise-inflight no_connection now b = refl
  penalise-inflight other_error now b = refl

  account-inflight :
      (success : Bool) (status latency_ms now : ℕ) (b : BucketState F)
      → (account success status latency_ms now b).inflight ≡ b.inflight
  unfolding account count_request count_latency reward
  account-inflight true status latency_ms now b = slide-inflight now (count_request b)
  account-inflight false status latency_ms now b =
      penalise-inflight (answer_of status) now _ ∙ slide-inflight now (count_request b)

  warm_up-inflight :
      (success : Bool) (b : BucketState F) → (warm_up success b).inflight ≡ b.inflight
  unfolding warm_up
  warm_up-inflight success b = ground arith

  pub record_response-inflight :
      (id k : String) (success : Bool) (status latency_ms now : ℕ) (s : Scheduler F)
      → inflight id (record_response k success status latency_ms now s) ≡ inflight id s
  unfolding record_response update_health
  record_response-inflight id k success status latency_ms now s =
      rebucketed id k now _ s (record_response k success status latency_ms now s) refl (
        warm_up-inflight success _
        ∙ account-inflight success status latency_ms now (bucket_of k now s))
