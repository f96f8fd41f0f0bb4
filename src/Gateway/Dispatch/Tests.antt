-- ===== src/Gateway/Dispatch/Tests.antt =====
-- Runs of the loop of `chat_completions`, with health scores in thousandths.
use aqua_rust.Common.{
  ℕ, ◌+◌, ◌<◌, ◌≡◌, refl, true, false, none, some, List, [], ◌∷◌, secs, pos, arith, lookup, insert,
  retain, string_discrete, sort_by, str_contains, to_lowercase,
}
use aqua_rust.Gateway.Floats.{Floats, thousandths}
use aqua_rust.Gateway.Circuit.{can_request, new, record_failure}
use aqua_rust.Gateway.Scheduler.{
  Scheduler, UpstreamKey, load_active_keys, begin_request, decrypt_upstream_key, default,
  end_request,
}
use aqua_rust.Gateway.Scheduler.Inflight.{inflight}
use aqua_rust.Gateway.Retry.{
  Request, Attempt, Answer, answered, served, max_attempts, should_retry, is_quota_exhausted_str,
}
use aqua_rust.Gateway.Dispatch.{
  dispatch, finish_stream, finish_whole, turns, continue, turn, allowed, ask, attempt, select_for,
  accept, failed, refuse, settle, use_key,
}
use aqua_rust.Gateway.Scheduler.Select.{
  select_key, select_among, candidates, is_candidate, effective, find_scored, pick_at,
  rotation_target, select_candidate, select_rotating, serve, sticky_key,
}
use aqua_rust.Gateway.Scheduler.Record.{clear_serving_for, record_response}
use aqua_rust.Gateway.Dispatch.Slots.{after, dispatch_slots, response_slots}
use aqua_rust.Gateway.Dispatch.Tried.{uses, dispatch_uses, NoRepeats, tries_no_key_twice}

instance abbrev floats : Floats
floats = thousandths

abbrev key_a : UpstreamKey
key_a = record {
  id = "a";
  name = "first";
  provider = "nvidia";
  api_key_cipher = "x";
  key_prefix = "nvap";
  weight = pos 1;
  rpm_limit = pos 0;
  switch_threshold = pos 0;
  model_scope = "";
  status = "active";
  base_url = "";
}

abbrev key_b : UpstreamKey
key_b = record key_a { id = "b" }

abbrev line_key : UpstreamKey
line_key = record key_a { id = "l"; provider = "kedang_line"; model_scope = "l1" }

abbrev general : Request
general = record {
  line_mode = false;
  is_acu = false;
  is_special = false;
  is_stream = true;
  model = "m";
  line_scope = "";
}

abbrev line : Request
line = record general { line_mode = true; line_scope = "l1" }

abbrev answering : ℕ → Answer → Attempt
answering t answer = record {
  elapsed_secs = t;
  asked_at = secs (5000 + t);
  selected_at = secs (5000 + t);
  answered_at = secs (5001 + t);
  fetched = some (key_a ∷ key_b ∷ line_key ∷ []);
  decrypt = λ cipher. some cipher;
  builds = true;
  answer = answer;
}

-- An error of the upstream, then a response.
abbrev two : List Attempt
two = answering 0 (answered 500 800 "oops" none) ∷ answering 1 (answered 200 900 "" none) ∷ []

abbrev idle : Scheduler ℕ
idle = record {
  loaded_at = 0;
  keys = [];
  buckets = [];
  decrypted = [];
  client_inflight = [];
  round_robin_index = 0;
  serving = [];
}

idle_low : inflight "b" idle < 1000000
unfolding inflight lookup
idle_low = omega arith

dispatch_slots_example :
    inflight "b" (dispatch general two idle []).0.scheduler
    ≡ after "b" (inflight "b" idle) (dispatch general two idle []).1
dispatch_slots_example = dispatch_slots "b" general two idle [] idle_low

second_serves : (dispatch general two idle []).1 ≡ served "b"
unfolding dispatch turns max_attempts continue turn allowed ask can_request lookup new attempt
    select_for select_key load_active_keys select_among candidates is_candidate insert retain
    string_discrete sort_by str_contains to_lowercase record_failure accept failed
    is_quota_exhausted_str refuse settle should_retry use_key clear_serving_for record_response
    effective find_scored pick_at rotation_target select_candidate select_rotating serve sticky_key
    begin_request decrypt_upstream_key default end_request
second_serves = refl

response_slots_example :
    (inflight "b"
        (finish_stream true "m" "b"
          (dispatch general two idle []).0.scheduler
          (dispatch general two idle []).0.breaker).0
      ≡ inflight "b" idle)
    × (inflight "b" (finish_whole "b" (dispatch general two idle []).0.scheduler)
        ≡ inflight "b" idle)
response_slots_example = response_slots "b" "b" true general two idle [] idle_low second_serves

both_are_used : dispatch_uses general two idle [] ≡ "a" ∷ "b" ∷ []
unfolding dispatch_uses uses turns max_attempts continue turn allowed ask can_request lookup new
    attempt select_for select_key load_active_keys select_among candidates is_candidate insert
    retain string_discrete sort_by str_contains to_lowercase record_failure accept failed
    is_quota_exhausted_str refuse settle should_retry use_key clear_serving_for record_response
    effective find_scored pick_at rotation_target select_candidate select_rotating serve sticky_key
    begin_request decrypt_upstream_key default end_request
both_are_used = refl

tries_no_key_twice_example : NoRepeats (dispatch_uses general two idle [])
tries_no_key_twice_example = tries_no_key_twice general two idle [] (refl, refl, refl)
