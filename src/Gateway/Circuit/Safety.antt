-- ===== src/Gateway/Circuit/Safety.antt =====
-- src/gateway/circuit.rs: `validate_request_safety` and the depth scan, over the bytes of a body.
-- `usize` counters do not wrap: they count bytes of one body.
pub mod Depth
pub mod Grammar
pub mod Inert
use aqua_rust.Common.{
  ℕ, ◌+◌, ◌-◌, ◌*◌, ◌/◌, Bool, true, false, ◌||◌, Option, none, some, List, [], ◌∷◌, foldl, length,
  ltb, ◌==◌, if◌then◌else◌, unwrap_or,
}

abbrev pub max_request_body_size : ℕ
max_request_body_size = 10 * 1024 * 1024

abbrev pub max_json_depth_allowed : ℕ
max_json_depth_allowed = 20

-- The variables of the scan's loop.
pub record Scan : Type 0 where
  pub depth : ℕ
  pub deepest : ℕ
  pub in_string : Bool
  pub escaped : Bool

scan_in_string : Scan → ℕ → Scan
scan_in_string s c =
    if s.escaped
    then record s { escaped = false }
    else if c == b'\\'
    then record s { escaped = true }
    else if c == b'"'
    then record s { in_string = false }
    else s

scan_outside : Scan → ℕ → Scan
scan_outside s c =
    if c == b'"'
    then record s { in_string = true }
    else if (c == b'{') || (c == b'[')
    then record s {
      depth = s.depth + 1;
      deepest = if ltb s.deepest (s.depth + 1) then s.depth + 1 else s.deepest;
    }
    else if (c == b'}') || (c == b']')
    then (if ltb 0 s.depth then record s { depth = s.depth - 1 } else s)
    else s

-- The body of the loop.
pub scan_byte : Scan → ℕ → Scan
unfolding scan_in_string scan_outside
scan_byte s c = if s.in_string then scan_in_string s c else scan_outside s c

abbrev pub scan_start : Scan
scan_start = record { depth = 0; deepest = 0; in_string = false; escaped = false }

unfoldable pub max_json_depth : List ℕ → Option ℕ
unfolding scan_byte
max_json_depth body = some (foldl scan_byte scan_start body).deepest

-- The texts of the refusals, with the sizes that the first prints.
pub data SafetyError : Type 0 where
  body_too_large : ℕ → ℕ → SafetyError
  nesting_too_deep : SafetyError

pub data Verdict : Type 0 where
  ok : Verdict
  err : SafetyError → Verdict

unfoldable pub validate_request_safety : List ℕ → Verdict
validate_request_safety body =
    if ltb max_request_body_size (length body)
    then err (body_too_large (length body / 1024 / 1024) (max_request_body_size / 1024 / 1024))
    else if ltb max_json_depth_allowed (unwrap_or (max_json_depth body) 0)
    then err nesting_too_deep
    else ok
