-- ===== src/Gateway/Circuit/Safety/Grammar.antt =====
-- JSON texts by the grammar of RFC 8259, with the white space, the escapes and the numbers that it
-- allows, as lists of bytes. The bytes from 128 on, in which UTF-8 writes the other characters, stand
-- in a string as they are.
use aqua_rust.Common.{
  ℕ, ◌+◌, ◌%◌, max, ◌≡◌, Bool, true, false, not, ◌&&◌, ◌||◌, Option, none, some, List, [], ◌∷◌,
  ◌++◌, ◌==◌, leb, if◌then◌else◌,
}

pub data Blank : Type 0 where
  space tabulator line_feed carriage_return : Blank

abbrev pub print_blanks : List Blank → List ℕ
print_blanks [] = []
print_blanks (space ∷ bs) = 32 ∷ print_blanks bs
print_blanks (tabulator ∷ bs) = 9 ∷ print_blanks bs
print_blanks (line_feed ∷ bs) = 10 ∷ print_blanks bs
print_blanks (carriage_return ∷ bs) = 13 ∷ print_blanks bs

-- A byte that is no control character, no quote and no backslash.
abbrev pub is_plain : ℕ → Bool
is_plain c = leb 32 c && leb c 255 && not (c == b'"') && not (c == b'\\')

abbrev pub is_hex : ℕ → Bool
is_hex c = (leb 48 c && leb c 57) || (leb 65 c && leb c 70) || (leb 97 c && leb c 102)

pub data Escape : Type 0 where
  quotation reverse_solidus solidus backspace form_feed new_line cr tab : Escape

abbrev pub escape_letter : Escape → ℕ
escape_letter quotation = b'"'
escape_letter reverse_solidus = b'\\'
escape_letter solidus = b'/'
escape_letter backspace = b'b'
escape_letter form_feed = b'f'
escape_letter new_line = b'n'
escape_letter cr = b'r'
escape_letter tab = b't'

pub record Hex : Type 0 where
  pub digit : ℕ
  pub is_digit : is_hex digit ≡ true

pub data Piece : Type 0 where
  plain : (c : ℕ) → is_plain c ≡ true → Piece
  escape : Escape → Piece
  unicode : Hex → Hex → Hex → Hex → Piece

abbrev pub print_piece : Piece → List ℕ
print_piece (plain c p) = c ∷ []
print_piece (escape e) = b'\\' ∷ escape_letter e ∷ []
print_piece (unicode a b c d) = b'\\' ∷ b'u' ∷ a.digit ∷ b.digit ∷ c.digit ∷ d.digit ∷ []

abbrev pub print_pieces : List Piece → List ℕ
print_pieces [] = []
print_pieces (p ∷ ps) = print_piece p ++ print_pieces ps

unfoldable pub quote : List Piece → List ℕ
quote ps = b'"' ∷ (print_pieces ps ++ (b'"' ∷ []))

abbrev pub digits : List ℕ → List ℕ
digits [] = []
digits (d ∷ ds) = (b'0' + d % 10) ∷ digits ds

-- At least one digit: the first, and the rest.
pub record Digits : Type 0 where
  pub first : ℕ
  pub rest : List ℕ

-- A zero, or digits of which the first, less one, is given.
pub data Whole : Type 0 where
  nought : Whole
  lead : ℕ → List ℕ → Whole

-- Of the exponent, whether it has a capital E and whether it has a sign, a minus if true.
pub record Exponent : Type 0 where
  pub capital : Bool
  pub sign : Option Bool
  pub power : Digits

pub record Number : Type 0 where
  pub negative : Bool
  pub whole : Whole
  pub fraction : Option Digits
  pub exponent : Option Exponent

abbrev pub print_whole : Whole → List ℕ
print_whole nought = b'0' ∷ []
print_whole (lead d ds) = (b'1' + d % 9) ∷ digits ds

abbrev pub print_fraction : Option Digits → List ℕ
print_fraction none = []
print_fraction (some f) = b'.' ∷ digits (f.first ∷ f.rest)

abbrev pub print_sign : Option Bool → List ℕ
print_sign none = []
print_sign (some true) = b'-' ∷ []
print_sign (some false) = b'+' ∷ []

abbrev pub print_exponent : Option Exponent → List ℕ
print_exponent none = []
print_exponent (some e) =
    (if e.capital then b'E' else b'e')
    ∷ (print_sign e.sign ++ digits (e.power.first ∷ e.power.rest))

unfoldable pub print_number : Number → List ℕ
print_number n =
    print_sign (if n.negative then some true else none)
    ++ (print_whole n.whole ++ (print_fraction n.fraction ++ print_exponent n.exponent))

abbrev pub literal : Bool → List ℕ
literal true = b't' ∷ b'r' ∷ b'u' ∷ b'e' ∷ []
literal false = b'f' ∷ b'a' ∷ b'l' ∷ b's' ∷ b'e' ∷ []

-- An array has white space behind its bracket, and each item white space before and behind it; so
-- have objects and their members, whose keys have it behind them and their values on both sides.
mutual
  pub data Value : Type 0 where
    null : Value
    bool : Bool → Value
    number : Number → Value
    quoted : List Piece → Value
    array : List Blank → Items → Value
    object : List Blank → Members → Value

  pub data Items : Type 0 where
    nil : Items
    cons : List Blank → Value → List Blank → Items → Items

  pub data Members : Type 0 where
    none_left : Members
    member :
        List Blank → List Piece → List Blank → List Blank → Value → List Blank → Members → Members

-- The comma in front of all but the first.
abbrev pub comma : Bool → List ℕ
comma true = []
comma false = b',' ∷ []

unfoldable mutual
  unfolding quote print_number

  pub print : Value → List ℕ
  print null = b'n' ∷ b'u' ∷ b'l' ∷ b'l' ∷ []
  print (bool b) = literal b
  print (number n) = print_number n
  print (quoted ps) = quote ps
  print (array bs xs) = b'[' ∷ ((print_blanks bs ++ print_items true xs) ++ (b']' ∷ []))
  print (object bs ms) = b'{' ∷ ((print_blanks bs ++ print_members true ms) ++ (b'}' ∷ []))

  pub print_items : Bool → Items → List ℕ
  print_items first nil = []
  print_items first (cons before x behind xs) =
      (comma first ++ print_blanks before)
      ++ (print x ++ (print_blanks behind ++ print_items false xs))

  pub print_members : Bool → Members → List ℕ
  print_members first none_left = []
  print_members first (member before k behind_key before_value v behind ms) =
      (comma first ++ print_blanks before)
      ++ (quote k
          ++ ((print_blanks behind_key ++ (b':' ∷ print_blanks before_value))
              ++ (print v ++ (print_blanks behind ++ print_members false ms))))

unfoldable mutual
  pub nesting : Value → ℕ
  nesting null = 0
  nesting (bool b) = 0
  nesting (number n) = 0
  nesting (quoted ps) = 0
  nesting (array bs xs) = 1 + nesting_items xs
  nesting (object bs ms) = 1 + nesting_members ms

  pub nesting_items : Items → ℕ
  nesting_items nil = 0
  nesting_items (cons before x behind xs) = max (nesting x) (nesting_items xs)

  pub nesting_members : Members → ℕ
  nesting_members none_left = 0
  nesting_members (member before k behind_key before_value v behind ms) =
      max (nesting v) (nesting_members ms)

-- A value with white space around it.
pub record JsonText : Type 0 where
  pub before : List Blank
  pub value : Value
  pub behind : List Blank

unfoldable pub print_text : JsonText → List ℕ
unfolding print
print_text t = print_blanks t.before ++ (print t.value ++ print_blanks t.behind)
