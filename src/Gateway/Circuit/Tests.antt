-- ===== src/Gateway/Circuit/Tests.antt =====
-- Runs of the breaker and of the scan at concrete inputs.
use aqua_rust.Common.{
  eq_iff, ℕ, ◌≤◌, ◌≡◌, refl, ◌≢◌, ◌↔◌, String, true, false, none, some, List, [], ◌∷◌, arith,
  length, secs,
}
use aqua_rust.Gateway.Circuit.{ModelBreaker, opened, new, run, asks, fails}
use aqua_rust.Gateway.Circuit.Breaker.{Inv, new-Inv, run-Inv}
use aqua_rust.Gateway.Circuit.Probes.{admitted, probes_counted}
use aqua_rust.Gateway.Circuit.Safety.{
  max_json_depth, validate_request_safety, ok, max_request_body_size, max_json_depth_allowed,
}
use aqua_rust.Gateway.Circuit.Safety.Depth.{max_json_depth-print_text, validate_request_safety_iff}
use aqua_rust.Gateway.Circuit.Safety.Grammar.{
  JsonText, array, cons, escape, lead, line_feed, member, nesting, nil, none_left, number, object,
  plain, print, print_number, print_text, quotation, quote, quoted, space,
}

-- Ten answers 503 in ten seconds.
abbrev outage : List (ℕ × ℕ)
outage =
    (secs 1, 503)
    ∷ (secs 2, 503)
    ∷ (secs 3, 503)
    ∷ (secs 4, 503)
    ∷ (secs 5, 503)
    ∷ (secs 6, 503)
    ∷ (secs 7, 503)
    ∷ (secs 8, 503)
    ∷ (secs 9, 503)
    ∷ (secs 10, 503)
    ∷ []

abbrev broken : ModelBreaker
broken = record {
  state = opened;
  fail429 = 0;
  fail5xx = 10;
  window_start = 0;
  open_until = secs 70;
  half_open_attempts = 0;
}

run-Inv_example : Inv (run (new 0) (asks (secs 1) ∷ fails (secs 2) 503 ∷ []))
run-Inv_example = run-Inv (new 0) (asks (secs 1) ∷ fails (secs 2) 503 ∷ []) (new-Inv 0)

a_not_b : ◌≢◌ {A = String} "a" "b"
a_not_b = ground (arith, eq_iff "a" "b")

-- An early request, four that are due, and one after more than a year.
abbrev askers : List ℕ
askers = secs 69 ∷ secs 70 ∷ secs 71 ∷ secs 71 ∷ secs 72 ∷ secs 40000000 ∷ []

probes_counted_example : admitted broken askers ≡ 3
probes_counted_example = probes_counted broken askers refl

-- `[ {"}]":["\""]},-1.5e2]`
abbrev tricky : JsonText
tricky = record {
  before = [];
  value = array (space ∷ []) (
      cons []
        (object [] (
          member [] (plain b'}' refl ∷ plain b']' refl ∷ []) [] []
            (array [] (cons [] (quoted (escape quotation ∷ [])) [] nil)) [] none_left))
        []
        (cons []
          (number (record {
            negative = true;
            whole = lead 0 [];
            fraction = some (record { first = 5; rest = [] });
            exponent =
                some (record {
                  capital = false;
                  sign = none;
                  power = record { first = 2; rest = [] };
                });
          }))
          [] nil));
  behind = line_feed ∷ [];
}

tricky_text :
    print_text tricky
    ≡ b'[' ∷ b' ' ∷ b'{' ∷ b'"' ∷ b'}' ∷ b']' ∷ b'"' ∷ b':' ∷ b'[' ∷ b'"' ∷ b'\\' ∷ b'"' ∷ b'"'
      ∷ b']' ∷ b'}' ∷ b',' ∷ b'-' ∷ b'1' ∷ b'.' ∷ b'5' ∷ b'e' ∷ b'2' ∷ b']' ∷ 10 ∷ []
unfolding print_text print quote print_number
tricky_text = refl

tricky_depth : max_json_depth (print_text tricky) ≡ some 3
unfolding nesting
tricky_depth = max_json_depth-print_text tricky

validate_request_safety_iff_example : (validate_request_safety (print_text tricky) ≡ ok) ↔ (
    (length (print_text tricky) ≤ max_request_body_size)
    × (nesting tricky.value ≤ max_json_depth_allowed))
validate_request_safety_iff_example = validate_request_safety_iff tricky
