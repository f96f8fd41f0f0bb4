-- ===== src/Gateway/Scheduler/Record/Health.antt =====
-- The health score stays in its range, whatever the floating-point steps before it give.
use aqua_rust.Common.{
  ℕ, ◌≡◌, String, Bool, true, Stored, insert-Stored, arith, Bool-cases, inl, inr,
}
use aqua_rust.Gateway.Floats.{Floats, FloatLaws, lit, clamp_bounds}
use aqua_rust.Gateway.Scheduler.{BucketState, Scheduler}
use aqua_rust.Gateway.Scheduler.Record.{score, update_health, warm_up, record_response}

module _ ⦃f : Floats⦄ (laws : FloatLaws f) where
  open f use {F, le, is_finite}

  -- Between 0 and 100.
  abbrev pub InRange : BucketState F → Type 0
  InRange b = (le (lit 0) b.health_score ≡ true) × (le b.health_score (lit 100) ≡ true)

  abbrev pub AllInRange : Scheduler F → Type 0
  AllInRange s = Stored (λ id b. InRange b) s.buckets

  update_health-InRange : (b : BucketState F) → InRange (update_health b)
  unfolding update_health
  update_health-InRange b = elim (Bool-cases (is_finite (score b))) [
    | inl e ↦ rw e (clamp_bounds laws (score b) 0 100 e (omega arith) (omega arith))
    | inr e ↦ rw e (
      laws.lit_le 0 100 (omega arith) (omega arith),
      laws.le_refl (lit 100) (laws.lit_finite 100 (omega arith)),
    )
  ]

  warm_up-InRange : (success : Bool) (b : BucketState F) → InRange b → InRange (warm_up success b)
  unfolding warm_up
  warm_up-InRange success b h = ground arith

  -- A response, good or bad, leaves every health score between 0 and 100, also where the score
  -- that was computed is infinite or not a number.
  pub record_response_health :
      (id : String) (success : Bool) (status latency now : ℕ) (s : Scheduler F)
      → AllInRange s
      → AllInRange (record_response id success status latency now s)
  unfolding record_response
  record_response_health id success status latency now s h =
      insert-Stored (λ k b. InRange b) (λ k b. InRange b) id _ s.buckets (λ _ _ _ p. p)
        (warm_up-InRange success _ (update_health-InRange _)) h
