-- ===== src/Gateway/Scheduler/Tests.antt =====
-- Runs of the scheduler at concrete inputs, with health scores in thousandths.
use aqua_rust.Common.{
  ℕ, ◌≡◌, ◌+◌, refl, ◌≢◌, ◌⊎◌, true, false, Option, some, List, [], ◌∷◌, any, lookup, secs, pos,
  arith, err, string_discrete,
}
use aqua_rust.Gateway.Floats.{Floats, thousandths}
use aqua_rust.Gateway.Scheduler.{UpstreamKey, BucketState, Scheduler, load_active_keys}
use aqua_rust.Gateway.Scheduler.Inflight.{
  Turn, begins, ends, take_turns, inflight, begun, ended, inflight_counts,
}
use aqua_rust.Gateway.Scheduler.Select.{select_key, SelectError, is_candidate, is_scoped}
use aqua_rust.Gateway.Scheduler.Select.Chosen.{Picks, Best, NoneFit, select_key_outcome}
use aqua_rust.Gateway.Scheduler.Record.{record_response}
use aqua_rust.Gateway.Scheduler.Record.Cooldown.{failed_key_rests}
use aqua_rust.Gateway.Scheduler.Record.Limit.{Response}

instance abbrev floats : Floats
floats = thousandths

abbrev key_a : UpstreamKey
key_a = record {
  id = "a";
  name = "first";
  provider = "nvidia";
  api_key_cipher = "";
  key_prefix = "nvap";
  weight = pos 1;
  rpm_limit = pos 2;
  switch_threshold = pos 0;
  model_scope = "";
  status = "active";
  base_url = "";
}

abbrev key_b : UpstreamKey
key_b = record key_a { id = "b"; model_scope = "m-large" }

abbrev table : Option (List UpstreamKey)
table = some (key_b ∷ key_a ∷ [])

abbrev fresh : Scheduler ℕ
fresh = record {
  loaded_at = 0;
  keys = [];
  buckets = [];
  decrypted = [];
  client_inflight = [];
  round_robin_index = 0;
  serving = [];
}

abbrev idle_bucket : BucketState ℕ
idle_bucket = record {
  last_used_at = 0;
  cooldown_until = 0;
  cooldown_reason = "";
  health_score = 100000;
  warmup_progress = 100000;
  total_requests = 0;
  total_success = 0;
  total_429 = 0;
  total_5xx = 0;
  total_timeout = 0;
  total_conn_err = 0;
  window_429 = 0;
  window_5xx = 0;
  window_req = 0;
  window_start = secs 4000;
  window_rt_sum = 0;
  window_rt_count = 0;
  inflight = 0;
}

abbrev used : Scheduler ℕ
used = record fresh { buckets = ("a", idle_bucket) ∷ [] }

select_key_outcome_example :
    let (s', keys) = load_active_keys (secs 5000) table fresh in
    let scoped = any (is_scoped "m-large") keys in
    Picks
      (Best (secs 5000) [] "m-large" scoped s' keys)
      (select_key (secs 5000) table "m-large" [] fresh)
    ⊎ (((e : SelectError) × ((select_key (secs 5000) table "m-large" [] fresh).1 ≡ err e))
        × NoneFit (secs 5000) [] "m-large" scoped s' keys)
select_key_outcome_example = select_key_outcome (secs 5000) [] "m-large" table fresh

failed_key_rests_example :
    let s' = record_response "a" false 429 20 (secs 5000) fresh in
    (is_candidate (secs 5009) [] false "m" s' key_a ≡ false)
    × (lookup "m" s'.serving ≢ some ("a", 4))
failed_key_rests_example =
    failed_key_rests key_a 429 20 (secs 5000) (secs 5009) [] false "m" 4 fresh tt (omega arith)

abbrev two_answers : List Response
two_answers =
    record { success = true; status = 200; latency = 700; at = secs 4010 }
    ∷ record { success = true; status = 200; latency = 900; at = secs 4020 }
    ∷ []

abbrev two_of_a : List Turn
two_of_a = begins "a" 1 ∷ begins "b" 2 ∷ begins "a" 3 ∷ ends "a" ∷ []

none_of_a : inflight "a" used ≡ 0
unfolding inflight lookup string_discrete
none_of_a = refl

inflight_counts_example :
    inflight "a" (take_turns two_of_a used) + ended "a" two_of_a
    ≡ inflight "a" used + begun "a" two_of_a
unfolding string_discrete
inflight_counts_example = inflight_counts "a" two_of_a used (
    rw none_of_a (
      (omega arith, omega arith),
      (
        (omega arith, omega arith),
        (
          (omega arith, omega arith),
          ((omega arith, omega arith), ((omega arith, omega arith), tt)),
        ),
      ),
    ))
