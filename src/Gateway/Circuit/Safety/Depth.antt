-- ===== src/Gateway/Circuit/Safety/Depth.antt =====
-- The scan against JSON texts: what it computes on a text is the nesting of its value.
use aqua_rust.Common.{
  ℕ, ◌+◌, ◌≤◌, max, ◌≡◌, refl, Bool, true, false, some, List, [], ◌∷◌, ◌++◌, length, arith, ap, ◌∙◌,
  ◌↔◌, All, All-append, sym,
}
use mathlib.Core.List.{append-nil}
use aqua_rust.Gateway.Circuit.Safety.{
  Scan, scan_byte, max_json_depth, validate_request_safety, ok, max_request_body_size,
  max_json_depth_allowed,
}
use aqua_rust.Gateway.Circuit.Safety.Grammar.{
  print_blanks, quote, print_number, literal, Value, null, bool, number, quoted, array, object,
  Items, nil, cons, Members, none_left, member, comma, print, print_items, print_members, nesting,
  nesting_items, nesting_members, JsonText, print_text,
}
use aqua_rust.Gateway.Circuit.Safety.Inert.{
  scan, at, IsInert, scan-append, scan-IsInert, scan-quote, print_blanks-IsInert,
  print_number-IsInert, literal-IsInert, comma-IsInert,
}

opening : (d m : ℕ) → scan_byte (at d m) b'[' ≡ at (d + 1) (max m (d + 1))
unfolding scan_byte
opening d m = ground arith

opening_brace : (d m : ℕ) → scan_byte (at d m) b'{' ≡ at (d + 1) (max m (d + 1))
unfolding scan_byte
opening_brace d m = ground arith

closing : (d m : ℕ) → scan_byte (at (d + 1) m) b']' ≡ at d m
unfolding scan_byte
closing d m = ground arith

closing_brace : (d m : ℕ) → scan_byte (at (d + 1) m) b'}' ≡ at d m
unfolding scan_byte
closing_brace d m = ground arith

bracketed :
    (o c : ℕ) (body : List ℕ) (d m n : ℕ)
    → scan_byte (at d m) o ≡ at (d + 1) (max m (d + 1))
    → ((k : ℕ) → scan_byte (at (d + 1) k) c ≡ at d k)
    → scan (at (d + 1) (max m (d + 1))) body ≡ at (d + 1) (max (max m (d + 1)) ((d + 1) + n))
    → scan (at d m) (o ∷ (body ++ (c ∷ []))) ≡ at d (max m (d + (1 + n)))
bracketed o c body d m n opens closes inner =
    ap (λ s. scan s (body ++ (c ∷ []))) opens
    ∙ scan-append (at (d + 1) (max m (d + 1))) body (c ∷ [])
    ∙ ap (λ s. scan_byte s c) inner
    ∙ closes (max (max m (d + 1)) ((d + 1) + n))
    ∙ ap (at d) (omega arith)

-- One part of a sequence after another.
followed :
    (xs ys : List ℕ) (d m n k : ℕ)
    → scan (at d m) xs ≡ at d (max m (d + n))
    → scan (at d (max m (d + n))) ys ≡ at d (max (max m (d + n)) (d + k))
    → scan (at d m) (xs ++ ys) ≡ at d (max m (d + max n k))
followed xs ys d m n k first second =
    scan-append (at d m) xs ys ∙ ap (λ s. scan s ys) first ∙ second ∙ ap (at d) (omega arith)

-- A part without brackets in front of another.
scan_flat :
    (d m : ℕ) (xs : List ℕ) → All IsInert xs → d ≤ m → scan (at d m) xs ≡ at d (max m (d + 0))
scan_flat d m xs h l =
    ap (scan (at d m)) (sym (append-nil xs)) ∙ scan-IsInert d m xs [] h ∙ ap (at d) (omega arith)

mutual
  unfolding print nesting

  scan-print :
      (v : Value) (d m : ℕ) → d ≤ m → scan (at d m) (print v) ≡ at d (max m (d + nesting v))
  scan-print null d m h =
      scan_flat d m (b'n' ∷ b'u' ∷ b'l' ∷ b'l' ∷ []) (refl, (refl, (refl, (refl, tt)))) h
  scan-print (bool b) d m h = scan_flat d m (literal b) (literal-IsInert b) h
  scan-print (number n) d m h = scan_flat d m (print_number n) (print_number-IsInert n) h
  scan-print (quoted ps) d m h =
      ap (scan (at d m)) (sym (append-nil (quote ps)))
      ∙ scan-quote d m ps []
      ∙ ap (at d) (omega arith)
  scan-print (array bs xs) d m h =
      bracketed b'[' b']' (print_blanks bs ++ print_items true xs) d m (nesting_items xs)
        (opening d m) (closing d)
        (scan-IsInert (d + 1) (max m (d + 1)) (print_blanks bs) (print_items true xs)
            (print_blanks-IsInert bs)
          ∙ scan-print_items true xs (d + 1) (max m (d + 1)) (omega arith))
  scan-print (object bs ms) d m h =
      bracketed b'{' b'}' (print_blanks bs ++ print_members true ms) d m (nesting_members ms)
        (opening_brace d m) (closing_brace d)
        (scan-IsInert (d + 1) (max m (d + 1)) (print_blanks bs) (print_members true ms)
            (print_blanks-IsInert bs)
          ∙ scan-print_members true ms (d + 1) (max m (d + 1)) (omega arith))

  scan-print_items :
      (first : Bool) (xs : Items) (d m : ℕ)
      → d ≤ m
      → scan (at d m) (print_items first xs) ≡ at d (max m (d + nesting_items xs))
  scan-print_items first nil d m h = ap (at d) (omega arith)
  scan-print_items first (cons before x behind xs) d m h =
      scan-IsInert d m (comma first ++ print_blanks before) _ (comma-IsInert first before)
      ∙ followed (print x) (print_blanks behind ++ print_items false xs) d m (nesting x)
          (nesting_items xs) (scan-print x d m h)
          (scan-IsInert d (max m (d + nesting x)) (print_blanks behind) (print_items false xs)
              (print_blanks-IsInert behind)
            ∙ scan-print_items false xs d (max m (d + nesting x)) (omega arith))

  scan-print_members :
      (first : Bool) (ms : Members) (d m : ℕ)
      → d ≤ m
      → scan (at d m) (print_members first ms) ≡ at d (max m (d + nesting_members ms))
  scan-print_members first none_left d m h = ap (at d) (omega arith)
  scan-print_members first (member before k behind_key before_value v behind ms) d m h =
      scan-IsInert d m (comma first ++ print_blanks before) _ (comma-IsInert first before)
      ∙ scan-quote d m k _
      ∙ scan-IsInert d m (print_blanks behind_key ++ (b':' ∷ print_blanks before_value)) _ (
          All-append IsInert (print_blanks behind_key) _ (print_blanks-IsInert behind_key)
            (refl, print_blanks-IsInert before_value))
      ∙ followed (print v) (print_blanks behind ++ print_members false ms) d m (nesting v)
          (nesting_members ms) (scan-print v d m h)
          (scan-IsInert d (max m (d + nesting v)) (print_blanks behind) (print_members false ms)
              (print_blanks-IsInert behind)
            ∙ scan-print_members false ms d (max m (d + nesting v)) (omega arith))

-- The scan of a JSON text finds the nesting of its value, whatever brackets, quotes and backslashes
-- stand in its strings and keys.
pub max_json_depth-print_text :
    (t : JsonText) → max_json_depth (print_text t) ≡ some (nesting t.value)
unfolding max_json_depth print_text
max_json_depth-print_text t =
    ap (λ (s : Scan). some s.deepest)
      (scan-IsInert 0 0 (print_blanks t.before) (print t.value ++ print_blanks t.behind)
          (print_blanks-IsInert t.before)
        ∙ followed (print t.value) (print_blanks t.behind) 0 0 (nesting t.value) 0
            (scan-print t.value 0 0 (omega arith))
            (scan_flat 0 (max 0 (0 + nesting t.value)) (print_blanks t.behind)
              (print_blanks-IsInert t.behind) (omega arith))
        ∙ ap (at 0) (omega arith))

-- A JSON text, written by the grammar of RFC 8259 with any white space, escapes and numbers, passes
-- the safety check exactly when it has at most 10 MB and its value is nested at most 20 deep.
pub validate_request_safety_iff :
    (t : JsonText)
    → (validate_request_safety (print_text t) ≡ ok) ↔ (
        (length (print_text t) ≤ max_request_body_size)
        × (nesting t.value ≤ max_json_depth_allowed))
unfolding validate_request_safety
validate_request_safety_iff t = ground (arith, max_json_depth-print_text t)
