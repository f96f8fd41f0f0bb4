-- ===== src/Platform/Username.antt =====
-- src/platform/guard.rs: the test for a user name that looks random. A name is the list of its
-- characters' numbers.
pub mod Runs
mod Tests
use aqua_rust.Common.{
  ℕ, ◌+◌, Bool, true, false, ◌&&◌, ◌||◌, Option, none, some, List, [], ◌∷◌, length, ltb, leb,
  if◌then◌else◌,
}

-- `is_ascii_alphabetic` and `is_ascii_digit`.
abbrev pub is_letter : ℕ → Bool
is_letter c = (leb 65 c && leb c 90) || (leb 97 c && leb c 122)

abbrev pub is_digit : ℕ → Bool
is_digit c = leb 48 c && leb c 57

-- The variables of the loop.
pub record Scan : Type 0 where
  pub has_letter : Bool
  pub has_digit : Bool
  pub letter_run : ℕ
  pub max_letter_run : ℕ

-- The body of the loop; none is the return for a special character.
unfoldable pub scan_char : Scan → ℕ → Option Scan
scan_char s c =
    if is_letter c
    then some (record s {
      has_letter = true;
      letter_run = s.letter_run + 1;
      max_letter_run =
          if ltb s.max_letter_run (s.letter_run + 1) then s.letter_run + 1 else s.max_letter_run;
    })
    else if is_digit c
    then some (record s { has_digit = true; letter_run = 0 })
    else none

unfoldable pub scan : Scan → List ℕ → Bool
scan s [] = s.has_letter && s.has_digit && leb s.max_letter_run 3
scan s (c ∷ cs) = elim (scan_char s c) [ none ↦ false | some s' ↦ scan s' cs ]

unfoldable pub is_random_username : List ℕ → Bool
is_random_username username =
    if ltb (length username) 4
    then false
    else scan (record { has_letter = false; has_digit = false; letter_run = 0; max_letter_run = 0 })
        username
