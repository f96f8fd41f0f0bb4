-- ===== src/Gateway/Scheduler.antt =====
-- src/gateway/scheduler.rs: the pool of upstream keys. The rows of the table and the clock's
-- readings are arguments; a time that lies before the clock's origin is the origin.
pub mod Inflight
pub mod Select
pub mod Record
mod Tests
use aqua_rust.Common.{
  ℕ, ◌+◌, ◌-◌, ◌<◌, String, Bool, true, false, not, ◌&&◌, Option, none, some, List, [], ◌∷◌, Map, ℤ,
  pos_part, lookup, insert, remove, retain, unwrap_or, is_empty, ltb, u64, secs, if◌then◌else◌,
}
use aqua_rust.Gateway.Floats.{Floats, lit}

pub record UpstreamKey : Type 0 where
  pub id : String
  pub name : String
  pub provider : String
  pub api_key_cipher : String
  pub key_prefix : String
  pub weight : ℤ
  pub rpm_limit : ℤ
  pub switch_threshold : ℤ
  pub model_scope : String
  pub status : String
  pub base_url : String

pub record BucketState (F : Type 0) : Type 0 where
  pub last_used_at : ℕ
  pub cooldown_until : ℕ
  pub cooldown_reason : String
  pub health_score : F
  pub warmup_progress : F
  pub total_requests : ℕ
  pub total_success : ℕ
  pub total_429 : ℕ
  pub total_5xx : ℕ
  pub total_timeout : ℕ
  pub total_conn_err : ℕ
  pub window_429 : ℕ
  pub window_5xx : ℕ
  pub window_req : ℕ
  pub window_start : ℕ
  pub window_rt_sum : ℕ
  pub window_rt_count : ℕ
  pub inflight : ℕ

-- The keys with the time of their loading; the decrypted secrets with theirs; for each model the
-- key that serves it and how often it has.
pub record Scheduler (F : Type 0) : Type 0 where
  pub loaded_at : ℕ
  pub keys : List UpstreamKey
  pub buckets : Map (BucketState F)
  pub decrypted : Map (ℕ × String)
  pub client_inflight : Map ℕ
  pub round_robin_index : ℕ
  pub serving : Map (String × ℕ)

abbrev pub active_keys_cache_ttl : ℕ
active_keys_cache_ttl = secs 30

abbrev pub key_cache_ttl : ℕ
key_cache_ttl = secs 300

module _ ⦃f : Floats⦄ where
  open f use {F}

  -- `BucketState::default`.
  unfoldable pub default : ℕ → BucketState F
  default now = record {
    last_used_at = now - secs 3600;
    cooldown_until = now - secs 3600;
    cooldown_reason = "";
    health_score = lit 100;
    warmup_progress = lit 100;
    total_requests = 0;
    total_success = 0;
    total_429 = 0;
    total_5xx = 0;
    total_timeout = 0;
    total_conn_err = 0;
    window_429 = 0;
    window_5xx = 0;
    window_req = 0;
    window_start = now - secs 3600;
    window_rt_sum = 0;
    window_rt_count = 0;
    inflight = 0;
  }

  unfoldable pub new : ℕ → Scheduler F
  new now = record {
    loaded_at = now - secs 1000;
    keys = [];
    buckets = [];
    decrypted = [];
    client_inflight = [];
    round_robin_index = 0;
    serving = [];
  }

  -- The rows that the table gives, or none on a database error.
  unfoldable pub load_active_keys :
      ℕ → Option (List UpstreamKey) → Scheduler F → Scheduler F × List UpstreamKey
  load_active_keys now fetched s =
      if ltb (now - s.loaded_at) active_keys_cache_ttl && not (is_empty s.keys)
      then (s, s.keys)
      else elim fetched [
        | none ↦ (s, s.keys)
        | some rows ↦ (record s { loaded_at = now; keys = rows }, rows)
      ]

  -- `decrypt` is what `decrypt_universal` and `String::from_utf8` make of the key's cipher text.
  unfoldable pub decrypt_upstream_key :
      (String → Option String) → ℕ → UpstreamKey → Scheduler F → Scheduler F × Option String
  decrypt_upstream_key decrypt now key s =
      let fresh : Scheduler F × Option String = elim (decrypt key.api_key_cipher) [
        | none ↦ (s, none)
        | some plain ↦ (record s { decrypted = insert key.id (now, plain) s.decrypted }, some plain)
      ] in
      elim (lookup key.id s.decrypted) [
        | none ↦ fresh
        | some (at, plain) ↦ if ltb (now - at) key_cache_ttl then (s, some plain) else fresh
      ]

  -- `self.buckets.get(id)`, cloned, or the default.
  abbrev pub bucket_of : String → ℕ → Scheduler F → BucketState F
  bucket_of id now s = unwrap_or (lookup id s.buckets) (default now)

  unfoldable pub begin_request : String → ℕ → Scheduler F → Scheduler F
  begin_request id now s =
      let b = bucket_of id now s in
      record s { buckets = insert id (record b { inflight = u64 (b.inflight + 1) }) s.buckets }

  unfoldable pub end_request : String → Scheduler F → Scheduler F
  end_request id s = elim (lookup id s.buckets) [
    | none ↦ s
    | some b ↦
        if ltb 0 b.inflight
        then record s { buckets = insert id (record b { inflight = b.inflight - 1 }) s.buckets }
        else s
  ]

  unfoldable pub record_client_request : String → Scheduler F → Scheduler F
  record_client_request client s =
      let n = unwrap_or (lookup client s.client_inflight) 0 in
      record s { client_inflight = insert client (u64 (n + 1)) s.client_inflight }

  -- `fetch_sub` wraps below zero.
  unfoldable pub release_client_request : String → Scheduler F → Scheduler F
  release_client_request client s = elim (lookup client s.client_inflight) [
    | none ↦ s
    | some n ↦ record s {
      client_inflight = insert client (u64 (n + 18446744073709551615)) s.client_inflight;
    }
  ]

  abbrev pub client_inflight_count : String → Scheduler F → ℕ
  client_inflight_count client s = unwrap_or (lookup client s.client_inflight) 0

  -- Buckets that were not used for ten minutes go, and the keys are loaded anew next time. The
  -- rows that the call loads are dropped with the cache.
  unfoldable pub run_background_tasks : ℕ → Option (List UpstreamKey) → Scheduler F → Scheduler F
  run_background_tasks now fetched s =
      let (s', rows) = load_active_keys now fetched s in
      record s' {
        buckets = retain (λ id b. not (ltb (secs 600) (now - b.last_used_at))) s'.buckets;
        loaded_at = now - secs 31;
      }
