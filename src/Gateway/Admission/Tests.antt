-- ===== src/Gateway/Admission/Tests.antt =====
-- Runs of an admission: a site with one line, a special model and a model of the own channel.
use aqua_rust.Common.{
  ℕ, String, true, false, Bool, none, some, List, [], ◌∷◌, ok, err, is_same, ◌==◌, ◌≡◌, ap, ◌⊎◌,
  refl, lookup, string_discrete, str_contains, to_lowercase, if◌then◌else◌, arith,
}
use aqua_rust.Common.Json.{Value, string, object, field, end, get, put, bool}
use aqua_rust.Gateway.Admission.{Admitted, admit, name_model}
use aqua_rust.Gateway.Admission.Surroundings.{
  Client, Limits, Site, model_unavailable, line_forbidden, commercial_detected,
}
use Prim.Native.String.{len}
use aqua_rust.Gateway.Admission.Asked.{named_body}
use aqua_rust.Gateway.Admission.Lines.{Authorized, line-Authorized}
use aqua_rust.Gateway.Admission.Open.{LetIn, Served, admitted_open}
use aqua_rust.Gateway.Admission.Waits.{Within, waits_bounded}

-- The bytes name the model of the request.
abbrev model_of : List ℕ → String
model_of [] = "gone"
model_of (b ∷ bytes) =
    if b == 1
    then "Fog/acuzc/m"
    else if b == 2
    then "acu/x"
    else if b == 3
    then "acuzc/m"
    else "gone"

abbrev clients : String → Client
clients key = record {
  client_id = key;
  user_id = if is_same key "sk-owner" then 7 else if is_same key "sk-line-9" then 9 else 8;
  is_line_key = is_same key "sk-line-9";
}

abbrev is_nine : ℕ → Bool
is_nine u = u == 9

abbrev site : Site
site = record {
  safety = λ b. ok tt;
  from_json = λ b. some (object (field "model" (string (model_of b)) (field "n" (string "1") end)));
  validate_and_sanitize = λ v. ok v;
  validate_parameters = λ v. ok tt;
  correct = λ m. if is_same m "Fog/acuzc/m" then "acuzc/m" else m;
  in_catalog = λ m. true;
  is_deprecated = λ m. is_same m "gone";
  is_special = λ m. is_same m "acuzc/m";
  is_acu = λ m. is_same m "acu/x";
  special_target = λ m. if is_same m "acuzc/m" then some "m-1" else none;
  acu_target = λ m. if is_same m "acu/x" then some "x-1" else none;
  line_prefix = λ m. if is_same m "Fog/acuzc/m" then some "Fog/" else none;
  model_failed = λ m. is_same m "acuzc/m";
  force_stream = true;
  special_call_allowed = false;
  clean_api_key = λ k. k;
  authenticate = λ k. ok (clients k);
  line_owners = ("Fog/", 7) ∷ [];
  super_whitelist = is_nine;
  trusted_clients = λ c. false;
  ip_blocked = λ i. false;
  banned = λ c. is_same c "sk-banned";
}

abbrev limits : Limits
limits = record {
  max_wait = 1000;
  global = some 200;
  super_user = none;
  user = some 1000;
  script = some 3;
}

abbrev put_true : Value → Value
put_true v = put "stream" (bool true) v

abbrev of_line : Admitted
of_line = record {
  named = record {
    body = put_true (object (field "model" (string "m-1") (field "n" (string "1") end)));
    model_name = "Fog/acuzc/m";
    corrected = "acuzc/m";
  };
  client = clients "sk-owner";
  line = some "Fog/";
  waits = [];
}

admitted_line : admit site limits (1 ∷ []) "sk-owner" "1.1.1.1" "x" ≡ ok of_line
unfolding admit lookup string_discrete
admitted_line = refl

line-Authorized_example :
    (site.is_special "acuzc/m" ≡ true) × Authorized site of_line.named of_line.client "Fog/"
line-Authorized_example =
    line-Authorized site limits (1 ∷ []) "sk-owner" "1.1.1.1" "x" of_line "Fog/" admitted_line refl

-- A key for lines is refused all the same while the model is marked as failed.
line_key_failed : admit site limits (3 ∷ []) "sk-line-9" "1.1.1.1" "x" ≡ err model_unavailable
unfolding admit string_discrete
line_key_failed = refl

not_the_owner : admit site limits (1 ∷ []) "sk-x" "1.1.1.1" "x" ≡ err line_forbidden
unfolding admit lookup string_discrete
not_the_owner = refl

scripted : admit site limits (2 ∷ []) "sk-x" "1.1.1.1" "Python-urllib" ≡ err commercial_detected
unfolding admit to_lowercase str_contains string_discrete
scripted = refl

abbrev of_own_channel : Admitted
of_own_channel = record {
  named = record {
    body = put_true (object (field "model" (string "x-1") (field "n" (string "1") end)));
    model_name = "acu/x";
    corrected = "acu/x";
  };
  client = clients "sk-x";
  line = none;
  waits = 200 ∷ (1000 ∷ []);
}

admitted_own_channel : admit site limits (2 ∷ []) "sk-x" "1.1.1.1" "x" ≡ ok of_own_channel
unfolding admit string_discrete str_contains to_lowercase
admitted_own_channel = refl

admitted_open_example :
    Served site of_own_channel.named
    × (site.authenticate "sk-x" ≡ ok of_own_channel.client)
    × LetIn site of_own_channel.named of_own_channel.client "1.1.1.1" none
admitted_open_example =
    admitted_open site limits (2 ∷ []) "sk-x" "1.1.1.1" "x" of_own_channel admitted_own_channel

waits_bounded_example :
    ((site.is_acu "acu/x" ≡ true) ⊎ (of_own_channel.waits ≡ []))
    × Within 1000 2 of_own_channel.waits
waits_bounded_example =
    waits_bounded site limits (2 ∷ []) "sk-x" "1.1.1.1" "x" of_own_channel admitted_own_channel

abbrev request : Value
request = object (field "model" (string "acu/x") (field "n" (string "1") end))

named : name_model site request ≡ ok of_own_channel.named
unfolding name_model string_discrete
named = refl

named_body_example : get "model" of_own_channel.named.body ≡ some (string "x-1")
unfolding string_discrete
named_body_example =
    named_body site request of_own_channel.named "model" named refl
      (λ z. absurd (omega (arith, ap len z)))
