-- ===== src/Gateway/Admission.antt =====
-- src/gateway/handler/public.rs: what `chat_completions_handler` checks before it selects a key. The
-- catalogue, the tables of src/constants.rs, the parts of src/appstate.rs and the answers of the
-- database and of the limiter are a `Site`; the bodies of requests are JSON values.
pub mod Asked
pub mod Lines
pub mod Open
pub mod Surroundings
pub mod Waits
mod Tests
use aqua_rust.Common.{
  ℕ, ◌+◌, String, Bool, true, false, not, ◌&&◌, ◌||◌, Option, none, some, List, [], ◌∷◌, ◌++◌,
  Result, ok, err, ◌>>=◌, ◌>>◌, guard, Map, lookup, if◌then◌else◌, ltb, ◌==◌, is_some, str_is_empty,
  any, str_contains, length, to_lowercase, unwrap_or,
}
use aqua_rust.Common.Json.{Value, bool, string, get, and_str, as_bool, or_text, put, or_option}
use aqua_rust.Gateway.Admission.Surroundings.{
  Refusal, bad_request, unknown_model, model_deprecated, model_unavailable, unauthorized,
  line_forbidden, line_model_unsupported, line_key_forbidden, model_not_open, ip_blocked,
  client_banned, commercial_detected, rate_limited, max_request_body_size, Client, Limits, Site,
  is_line_owner, is_super_whitelisted, line_scope_for_user,
}

-- A text of an error as a bad request.
abbrev pub or_bad_request {ℓ} : {A : Type ℓ} → Result String A → Result Refusal A
or_bad_request (ok a) = ok a
or_bad_request (err e) = err (bad_request e)

abbrev pub parsed : Option Value → Result Refusal Value
parsed none = err (bad_request "无效的 JSON 格式")
parsed (some v) = ok v

abbrev pub put_target : Option String → Value → Value
put_target none body = body
put_target (some t) body = put "model" (string t) body

-- The request with its model.
pub record Named : Type 0 where
  pub body : Value
  pub model_name : String
  pub corrected : String

module _ (s : Site) where
  unfoldable pub read_body : List ℕ → Result Refusal Value
  read_body bytes = do
    guard (not (ltb max_request_body_size (length bytes))) (bad_request "请求体过大")
    or_bad_request (s.safety bytes)
    raw ← parsed (s.from_json bytes)
    body ← or_bad_request (s.validate_and_sanitize raw)
    or_bad_request (s.validate_parameters body)
    ok body

  -- The model that the upstream is asked for.
  abbrev pub target_model : String → Option String
  target_model corrected =
      if s.is_special corrected || s.is_acu corrected
      then or_option (s.special_target corrected) (s.acu_target corrected)
      else none

  abbrev pub put_model : String → Value → Value
  put_model corrected body =
      put_target (target_model corrected) (put "model" (string corrected) body)

  abbrev pub put_stream : Value → Value
  put_stream body =
      if s.force_stream && not (is_some (get "stream" body))
      then put "stream" (bool true) body
      else body

  unfoldable pub check_model : String → String → Result Refusal (Unit {0})
  check_model model_name corrected = do
    guard (not (str_is_empty corrected) && s.in_catalog corrected) unknown_model
    guard (not (s.is_deprecated corrected)) model_deprecated
    guard (is_some (s.line_prefix model_name) || not (s.model_failed corrected)) model_unavailable

  unfoldable pub name_model : Value → Result Refusal Named
  unfolding check_model
  name_model body = do
    let model_name = or_text "" (and_str (get "model" body))
    let corrected = s.correct model_name
    check_model model_name corrected
    ok (record {
      body = put_stream (put_model corrected body);
      model_name = model_name;
      corrected = corrected;
    })

  unfoldable pub who : String → Result Refusal Client
  who api_key = do
    let cleaned = s.clean_api_key api_key
    guard (not (str_is_empty cleaned)) unauthorized
    s.authenticate cleaned

  -- The line that a key of the platform's owner opens.
  unfoldable pub key_line : Named → Client → Result Refusal (Option String)
  unfolding is_super_whitelisted line_scope_for_user
  key_line n c =
      if c.is_line_key
      then (do
        guard (is_super_whitelisted s c.user_id) line_key_forbidden
        guard (s.is_special n.corrected) line_model_unsupported
        ok (some (unwrap_or (line_scope_for_user c.user_id s.line_owners) "")))
      else ok none

  -- The scope of the line, if the request is one of a line.
  unfoldable pub line_of : Named → Client → Result Refusal (Option String)
  unfolding is_line_owner key_line
  line_of n c = elim (s.line_prefix n.model_name) [
    | some prefix ↦ do
      guard (is_line_owner s prefix c.user_id) line_forbidden
      guard (s.is_special n.corrected) line_model_unsupported
      ok (some prefix)
    | none ↦ key_line n c
  ]

  unfoldable pub check_risk : Named → Client → String → Option String → Result Refusal (Unit {0})
  check_risk n c ip line = do
    let trusted = s.trusted_clients c.client_id || is_some line
    guard (not (s.is_special n.corrected) || is_some line || s.special_call_allowed) model_not_open
    guard (trusted || not (s.ip_blocked ip)) ip_blocked
    guard (trusted || not (s.banned c.client_id)) client_banned

-- One check of the limiter: the sleep, or the refusal.
unfoldable pub soft_limit : ℕ → Option ℕ → Result Refusal (List ℕ)
soft_limit max_wait none = ok []
soft_limit max_wait (some wait) =
    if ltb max_wait wait then err (rate_limited wait) else ok (wait ∷ [])

unfoldable pub is_script : String → Bool
is_script ua =
    any (str_contains (to_lowercase ua)) (
      "python"
      ∷ ("curl" ∷ ("go-http" ∷ ("node-fetch" ∷ ("axios" ∷ ("okhttp" ∷ ("aiohttp" ∷ [])))))))

module _ (s : Site) where
  -- The sleeps of a request of the own channel.
  unfoldable pub own_channel : Limits → Client → String → Result Refusal (List ℕ)
  unfolding soft_limit is_super_whitelisted is_script
  own_channel l c ua = do
    let top = is_super_whitelisted s c.user_id
    first ← soft_limit l.max_wait l.global
    second ← soft_limit l.max_wait (if top then l.super_user else l.user)
    guard (top || not (is_script ua) || not (is_some l.script)) commercial_detected
    ok (first ++ second)

  unfoldable pub throttle : Limits → Named → Client → String → Result Refusal (List ℕ)
  unfolding own_channel
  throttle l n c ua = if s.is_acu n.corrected then own_channel l c ua else ok []

-- What goes on to the selection of a key.
pub record Admitted : Type 0 where
  pub named : Named
  pub client : Client
  pub line : Option String
  pub waits : List ℕ

module _ (s : Site) where
  unfoldable pub admit : Limits → List ℕ → String → String → String → Result Refusal Admitted
  unfolding read_body name_model who line_of check_risk throttle
  admit l bytes api_key ip ua = do
    body ← read_body s bytes
    n ← name_model s body
    c ← who s api_key
    line ← line_of s n c
    check_risk s n c ip line
    waits ← throttle s l n c ua
    ok (record { named = n; client = c; line = line; waits = waits })
