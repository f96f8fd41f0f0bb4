-- ===== src/Gateway/Admission/Surroundings.antt =====
-- src/appstate.rs and src/gateway/handler/public.rs: what an admission asks of its surroundings, who
-- asks to be admitted and what they are refused for.
use aqua_rust.Common.{
  ℕ, String, Bool, false, ◌&&◌, Option, none, some, List, [], ◌∷◌, Result, Map, lookup,
  if◌then◌else◌, ltb, ◌==◌,
}
use aqua_rust.Common.Json.{Value}

pub data Refusal : Type 0 where
  bad_request internal : String → Refusal
  unknown_model model_deprecated model_unavailable unauthorized : Refusal
  line_forbidden line_model_unsupported line_key_forbidden model_not_open : Refusal
  ip_blocked client_banned commercial_detected : Refusal
  rate_limited : ℕ → Refusal

abbrev pub max_request_body_size : ℕ
max_request_body_size = 10485760

-- Who has sent the request.
pub record Client : Type 0 where
  pub client_id : String
  pub user_id : ℕ
  pub is_line_key : Bool

-- What the limiter says to each check: the wait, in nanoseconds, if there is one.
pub record Limits : Type 0 where
  pub max_wait : ℕ
  pub global : Option ℕ
  pub super_user : Option ℕ
  pub user : Option ℕ
  pub script : Option ℕ

pub record Site : Type 0 where
  -- `validate_request_safety` and the parser, by the body's bytes.
  pub safety : List ℕ → Result String (Unit {0})
  pub from_json : List ℕ → Option Value
  pub validate_and_sanitize : Value → Result String Value
  pub validate_parameters : Value → Result String (Unit {0})
  pub correct : String → String
  pub in_catalog : String → Bool
  pub is_deprecated : String → Bool
  pub is_special : String → Bool
  pub is_acu : String → Bool
  pub special_target : String → Option String
  pub acu_target : String → Option String
  pub line_prefix : String → Option String
  pub model_failed : String → Bool
  pub force_stream : Bool
  pub special_call_allowed : Bool
  pub clean_api_key : String → String
  pub authenticate : String → Result Refusal Client
  -- The owners of the lines, and the users and clients that are trusted.
  pub line_owners : Map ℕ
  pub super_whitelist : ℕ → Bool
  pub trusted_clients : String → Bool
  pub ip_blocked : String → Bool
  pub banned : String → Bool

module _ (s : Site) where
  unfoldable pub is_line_owner : String → ℕ → Bool
  is_line_owner prefix user = elim (lookup prefix s.line_owners) [
    | none ↦ false
    | some owner ↦ owner == user
  ]

  unfoldable pub is_super_whitelisted : ℕ → Bool
  is_super_whitelisted user = ltb 0 user && s.super_whitelist user

-- The first line of a user.
unfoldable pub line_scope_for_user : ℕ → Map ℕ → Option String
line_scope_for_user user [] = none
line_scope_for_user user ((prefix, owner) ∷ m) =
    if owner == user then some prefix else line_scope_for_user user m
