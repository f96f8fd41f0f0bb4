-- ===== src/Gateway/Scheduler/Record/Limit.antt =====
-- The limit of requests per minute, and the backoff after a 403, over a run of responses.
use aqua_rust.Common.{
  ℕ, ◌+◌, ◌-◌, ◌≤◌, ◌<◌, ◌≡◌, refl, String, Bool, false, some, List, [], ◌∷◌, All, length, map,
  lookup, lookup-insert_self, secs, pos_part, arith,
}
use aqua_rust.Gateway.Floats.{Floats}
use aqua_rust.Gateway.Scheduler.{UpstreamKey, BucketState, Scheduler, bucket_of}
use aqua_rust.Gateway.Scheduler.Select.{is_candidate}
use aqua_rust.Gateway.Scheduler.Record.{
  account, update_health, warm_up, record_response, slide_window, level_403,
}

-- A response of one key: its success, status, latency, and the time of its end.
pub record Response : Type 0 where
  pub success : Bool
  pub status : ℕ
  pub latency : ℕ
  pub at : ℕ

module _ ⦃f : Floats⦄ where
  open f use {F}

  -- The bucket of a key after a response.
  pub respond : Response → BucketState F → BucketState F
  respond r b = warm_up r.success (update_health (account r.success r.status r.latency r.at b))

  pub respond_all : List Response → BucketState F → BucketState F
  respond_all [] b = b
  respond_all (r ∷ rs) b = respond_all rs (respond r b)

  abbrev pub record_all : String → List Response → Scheduler F → Scheduler F
  record_all id [] s = s
  record_all id (r ∷ rs) s =
      record_all id rs (record_response id r.success r.status r.latency r.at s)

  record_all_bucket :
      (id : String) (rs : List Response) (s : Scheduler F) (b : BucketState F)
      → lookup id s.buckets ≡ some b
      → lookup id (record_all id rs s).buckets ≡ some (respond_all rs b)
  unfolding respond_all respond record_response
  record_all_bucket id [] s b h = h
  record_all_bucket id (r ∷ rs) s b h =
      record_all_bucket id rs _ (respond r b)
        (rw (h, bucket_of) (lookup-insert_self id _ s.buckets))

  respond_window :
      (r : Response) (b : BucketState F) (n : ℕ)
      → b.window_req ≡ n
      → n < 1000000
      → r.at - b.window_start ≤ slide_window
      → ((respond r b).window_req ≡ n + 1) × ((respond r b).window_start ≡ b.window_start)
  unfolding respond account update_health warm_up
  respond_window r b n e l w = ground arith

  window_counts :
      (rs : List Response) (b : BucketState F) (n start : ℕ)
      → b.window_req ≡ n
      → b.window_start ≡ start
      → n + length rs < 1000000
      → All (λ r. r.at - start ≤ slide_window) rs
      → (respond_all rs b).window_req ≡ n + length rs
  unfolding respond_all
  window_counts [] b n start e st l h = omega (arith, e)
  window_counts (r ∷ rs) b n start e st l h =
      let w = respond_window r b n e (omega arith) (omega (arith, h.0)) in
      omega (
        arith,
        window_counts rs (respond r b) (n + 1) start w.0 (omega (arith, w.1)) (omega arith) h.1,
      )

  -- A key with a limit of requests per minute that has had as many responses in one window is no
  -- candidate afterwards, at any time: the window's end alone does not give the key back.
  pub limit_outlives_window :
      (k : UpstreamKey) (rs : List Response) (s : Scheduler F) (b : BucketState F) (later : ℕ)
      (tried : List String) (scoped : Bool) (model : String)
      → lookup k.id s.buckets ≡ some b
      → 0 < pos_part k.rpm_limit
      → pos_part k.rpm_limit ≤ b.window_req + length rs
      → b.window_req + length rs < 1000000
      → All (λ r. r.at - b.window_start ≤ slide_window) rs
      → is_candidate later tried scoped model (record_all k.id rs s) k ≡ false
  unfolding is_candidate
  limit_outlives_window k rs s b later tried scoped model at p full l h =
      let now_at = record_all_bucket k.id rs s b at in
      let n = window_counts rs b b.window_req b.window_start refl refl l h in
      rw now_at (ground (arith, n))

  -- The response that begins a new window is not counted in it.
  pub first_of_window_uncounted :
      (r : Response) (b : BucketState F)
      → slide_window < r.at - b.window_start
      → ((respond r b).window_req ≡ 0)
        × ((respond r b).window_rt_count ≡ 1)
        × ((respond r b).window_start ≡ r.at)
  unfolding respond account update_health warm_up
  first_of_window_uncounted r b h = ground arith

  forbidden_step :
      (latency now : ℕ) (b : BucketState F)
      → b.total_429 ≡ 0
      → b.total_5xx ≡ 0
      → let b' =
          respond (record { success = false; status = 403; latency = latency; at = now }) b in
        (b'.total_429 ≡ 0) × (b'.total_5xx ≡ 0) × (b'.cooldown_until ≡ now + secs 60)
  unfolding respond account update_health warm_up level_403
  forbidden_step latency now b h k = ground arith

  abbrev pub forbidden_at : ℕ × ℕ → Response
  forbidden_at (latency, now) = record {
    success = false;
    status = 403;
    latency = latency;
    at = now;
  }

  -- However often a key is answered 403, if it has met neither a 429 nor a 5xx it rests for 60
  -- seconds after each: the backoff does not count the 403s.
  pub forbidden_never_escalates :
      (fs : List (ℕ × ℕ)) (latency now : ℕ) (b : BucketState F)
      → b.total_429 ≡ 0
      → b.total_5xx ≡ 0
      → (respond (forbidden_at (latency, now)) (respond_all (map forbidden_at fs) b)).cooldown_until
        ≡ now + secs 60
  unfolding respond_all
  forbidden_never_escalates [] latency now b h k = (forbidden_step latency now b h k).2
  forbidden_never_escalates ((l, t) ∷ fs) latency now b h k =
      let (h', k', _) = forbidden_step l t b h k in
      forbidden_never_escalates fs latency now (respond (forbidden_at (l, t)) b) h' k'
