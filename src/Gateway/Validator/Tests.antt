-- ===== src/Gateway/Validator/Tests.antt =====
-- The validator at concrete names.
use aqua_rust.Common.{ℕ, ◌≤◌, ◌≡◌, refl, List, [], ◌∷◌, Memᴰ}
use aqua_rust.Gateway.Floats.{Floats, thousandths}
use aqua_rust.Gateway.Validator.{
  levenshtein, rows, next_row, row_from, first_row, last_of, rev_onto,
}
use aqua_rust.Gateway.Validator.Distance.{Edits, levenshtein-Edits}
use aqua_rust.Gateway.Validator.Correct.{ModelInfo, trim, trim_start, is_whitespace}
use aqua_rust.Gateway.Validator.Correct.Known.{IsKnown}

instance abbrev floats : Floats
floats = thousandths

abbrev kitten : List ℕ
kitten = b'k' ∷ b'i' ∷ b't' ∷ b't' ∷ b'e' ∷ b'n' ∷ []

abbrev sitting : List ℕ
sitting = b's' ∷ b'i' ∷ b't' ∷ b't' ∷ b'i' ∷ b'n' ∷ b'g' ∷ []

kitten-sitting : levenshtein kitten sitting ≡ 3
unfolding levenshtein rows next_row row_from first_row last_of
kitten-sitting = refl

levenshtein-Edits_example :
    Edits kitten sitting (levenshtein kitten sitting)
    × ((n : ℕ) → Edits kitten sitting n → levenshtein kitten sitting ≤ n)
levenshtein-Edits_example = levenshtein-Edits kitten sitting

abbrev catalog : List ModelInfo
catalog = record { id = b'a' ∷ b'-' ∷ b'1' ∷ []; extra_aliases = [] } ∷ []

abbrev spaced : List ℕ
spaced = b' ' ∷ b'a' ∷ b'-' ∷ b'1' ∷ b' ' ∷ []

trimmed : trim spaced ≡ b'a' ∷ b'-' ∷ b'1' ∷ []
unfolding trim trim_start is_whitespace rev_onto
trimmed = refl

known : IsKnown catalog (trim spaced)
unfolding trim trim_start is_whitespace rev_onto
known = (record { id = b'a' ∷ b'-' ∷ b'1' ∷ []; extra_aliases = [] }, Memᴰ.head refl, refl)
