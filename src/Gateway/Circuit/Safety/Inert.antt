-- ===== src/Gateway/Circuit/Safety/Inert.antt =====
-- The scan over strings, and over the parts of a JSON text that have no bracket and no quote.
use aqua_rust.Common.{
  ℕ, ◌≡◌, refl, Bool, true, false, ◌||◌, Option, none, some, List, [], ◌∷◌, ◌++◌, foldl, ◌==◌,
  if◌then◌else◌, arith, ap, ◌∙◌, All, All-append,
}
use mathlib.Core.List.{append_assoc}
use aqua_rust.Gateway.Circuit.Safety.{Scan, scan_byte}
use aqua_rust.Gateway.Circuit.Safety.Grammar.{
  Blank, space, tabulator, line_feed, carriage_return, print_blanks, Hex, Piece, plain, escape,
  unicode, print_piece, print_pieces, quote, digits, Digits, Whole, nought, lead, Exponent, Number,
  print_whole, print_fraction, print_sign, print_exponent, print_number, literal, comma,
}

abbrev pub scan : Scan → List ℕ → Scan
scan = foldl scan_byte

-- Outside a string, at depth `d`, with the greatest depth `m` so far.
abbrev pub at : ℕ → ℕ → Scan
at d m = record { depth = d; deepest = m; in_string = false; escaped = false }

abbrev within : ℕ → ℕ → Scan
within d m = record { depth = d; deepest = m; in_string = true; escaped = false }

pub scan-append : (s : Scan) (xs ys : List ℕ) → scan s (xs ++ ys) ≡ scan (scan s xs) ys
scan-append s [] ys = refl
scan-append s (x ∷ xs) ys = scan-append (scan_byte s x) xs ys

-- Bytes that mean nothing to the scan outside a string, and inside one.
abbrev pub IsInert : ℕ → Type 0
IsInert c = (((c == b'"') || (c == b'{') || (c == b'[') || (c == b'}') || (c == b']')) ≡ false)

abbrev IsMute : ℕ → Type 0
IsMute c = ((c == b'"') || (c == b'\\')) ≡ false

scan_byte-IsInert : (d m c : ℕ) → IsInert c → scan_byte (at d m) c ≡ at d m
unfolding scan_byte
scan_byte-IsInert d m c h = ground arith

scan_byte-IsMute : (d m c : ℕ) → IsMute c → scan_byte (within d m) c ≡ within d m
unfolding scan_byte
scan_byte-IsMute d m c h = ground arith

-- An inert part in front.
pub scan-IsInert :
    (d m : ℕ) (xs ys : List ℕ) → All IsInert xs → scan (at d m) (xs ++ ys) ≡ scan (at d m) ys
scan-IsInert d m [] ys h = refl
scan-IsInert d m (c ∷ xs) ys h =
    ap (λ s. scan s (xs ++ ys)) (scan_byte-IsInert d m c h.0) ∙ scan-IsInert d m xs ys h.1

is_hex-IsMute : (h : Hex) → IsMute h.digit
is_hex-IsMute h = ground (arith, h.is_digit)

scan-piece :
    (d m : ℕ) (p : Piece) (ys : List ℕ)
    → scan (within d m) (print_piece p ++ ys) ≡ scan (within d m) ys
unfolding scan_byte
scan-piece d m (plain c e) ys = ap (λ s. scan s ys) (scan_byte-IsMute d m c (ground (arith, e)))
scan-piece d m (escape e) ys = refl
scan-piece d m (unicode a b c e) ys =
    ap (λ s. scan s (b.digit ∷ c.digit ∷ e.digit ∷ ys))
      (scan_byte-IsMute d m a.digit (is_hex-IsMute a))
    ∙ ap (λ s. scan s (c.digit ∷ e.digit ∷ ys)) (scan_byte-IsMute d m b.digit (is_hex-IsMute b))
    ∙ ap (λ s. scan s (e.digit ∷ ys)) (scan_byte-IsMute d m c.digit (is_hex-IsMute c))
    ∙ ap (λ s. scan s ys) (scan_byte-IsMute d m e.digit (is_hex-IsMute e))

scan-pieces :
    (d m : ℕ) (ps : List Piece) (ys : List ℕ)
    → scan (within d m) (print_pieces ps ++ ys) ≡ scan (within d m) ys
scan-pieces d m [] ys = refl
scan-pieces d m (p ∷ ps) ys =
    ap (scan (within d m)) (append_assoc (print_piece p) (print_pieces ps) ys)
    ∙ scan-piece d m p (print_pieces ps ++ ys)
    ∙ scan-pieces d m ps ys

pub scan-quote :
    (d m : ℕ) (ps : List Piece) (ys : List ℕ) → scan (at d m) (quote ps ++ ys) ≡ scan (at d m) ys
unfolding quote scan_byte
scan-quote d m ps ys =
    ap (scan (within d m)) (append_assoc (print_pieces ps) (b'"' ∷ []) ys)
    ∙ scan-pieces d m ps (b'"' ∷ ys)

pub print_blanks-IsInert : (bs : List Blank) → All IsInert (print_blanks bs)
print_blanks-IsInert [] = tt
print_blanks-IsInert (space ∷ bs) = (refl, print_blanks-IsInert bs)
print_blanks-IsInert (tabulator ∷ bs) = (refl, print_blanks-IsInert bs)
print_blanks-IsInert (line_feed ∷ bs) = (refl, print_blanks-IsInert bs)
print_blanks-IsInert (carriage_return ∷ bs) = (refl, print_blanks-IsInert bs)

digits-IsInert : (ds : List ℕ) → All IsInert (digits ds)
digits-IsInert [] = tt
digits-IsInert (d ∷ ds) = (ground arith, digits-IsInert ds)

print_whole-IsInert : (w : Whole) → All IsInert (print_whole w)
print_whole-IsInert nought = (refl, tt)
print_whole-IsInert (lead d ds) = (ground arith, digits-IsInert ds)

print_fraction-IsInert : (f : Option Digits) → All IsInert (print_fraction f)
print_fraction-IsInert none = tt
print_fraction-IsInert (some f) = (refl, digits-IsInert (f.first ∷ f.rest))

print_sign-IsInert : (s : Option Bool) → All IsInert (print_sign s)
print_sign-IsInert none = tt
print_sign-IsInert (some true) = (refl, tt)
print_sign-IsInert (some false) = (refl, tt)

print_exponent-IsInert : (e : Option Exponent) → All IsInert (print_exponent e)
print_exponent-IsInert none = tt
print_exponent-IsInert (some e) = (
  ground arith,
  All-append IsInert (print_sign e.sign) _ (print_sign-IsInert e.sign)
      (digits-IsInert (e.power.first ∷ e.power.rest)),
)

pub print_number-IsInert : (n : Number) → All IsInert (print_number n)
unfolding print_number
print_number-IsInert n =
    All-append IsInert (print_sign (if n.negative then some true else none)) _
      (print_sign-IsInert (if n.negative then some true else none))
      (All-append IsInert (print_whole n.whole) _ (print_whole-IsInert n.whole) (
        All-append IsInert (print_fraction n.fraction) _ (print_fraction-IsInert n.fraction)
          (print_exponent-IsInert n.exponent)))

pub literal-IsInert : (b : Bool) → All IsInert (literal b)
literal-IsInert true = (refl, (refl, (refl, (refl, tt))))
literal-IsInert false = (refl, (refl, (refl, (refl, (refl, tt)))))

pub comma-IsInert : (first : Bool) (bs : List Blank) → All IsInert (comma first ++ print_blanks bs)
comma-IsInert true bs = print_blanks-IsInert bs
comma-IsInert false bs = (refl, print_blanks-IsInert bs)
