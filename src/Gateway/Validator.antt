-- ===== src/Gateway/Validator.antt =====
-- src/gateway/validator.rs: the edit distance and the separators of a model's name. A text is the
-- list of its characters' numbers.
pub mod Distance
pub mod Correct
pub mod Keys
mod Tests
use aqua_rust.Common.{
  ℕ, zero, suc, ◌+◌, min, Bool, true, false, not, ◌&&◌, ◌||◌, List, [], ◌∷◌, leb, ◌==◌,
  if◌then◌else◌, filter, length,
}

-- `char::is_ascii_alphanumeric`.
abbrev pub is_ascii_alphanumeric : ℕ → Bool
is_ascii_alphanumeric c =
    (leb 48 c && leb c 57) || (leb 65 c && leb c 90) || (leb 97 c && leb c 122)

unfoldable pub normalize_model_id : List ℕ → List ℕ
normalize_model_id s = filter (λ c. not (is_ascii_alphanumeric c)) s

abbrev pub cost : ℕ → ℕ → ℕ
cost ca cb = if ca == cb then 0 else 1

-- The inner loop. `last` is what was pushed before, `corner` and the list the previous row from
-- the place of the loop on.
unfoldable pub row_from : ℕ → ℕ → ℕ → List ℕ → List ℕ → List ℕ
row_from ca last corner above [] = []
row_from ca last corner [] (cb ∷ b) = []
row_from ca last corner (up ∷ above) (cb ∷ b) =
    let cell = min (min (up + 1) (last + 1)) (corner + cost ca cb) in
    cell ∷ row_from ca cell up above b

-- The row of the `i`-th character.
unfoldable pub next_row : ℕ → ℕ → List ℕ → List ℕ → List ℕ
next_row i ca [] b = (i + 1) ∷ []
next_row i ca (corner ∷ above) b = (i + 1) ∷ row_from ca (i + 1) corner above b

-- The outer loop.
unfoldable pub rows : ℕ → List ℕ → List ℕ → List ℕ → List ℕ
rows i prev b [] = prev
rows i prev b (ca ∷ a) = rows (i + 1) (next_row i ca prev b) b a

-- `(n..=n + length).collect()`.
unfoldable pub first_row : ℕ → List ℕ → List ℕ
first_row n [] = n ∷ []
first_row n (x ∷ b) = n ∷ first_row (n + 1) b

-- `prev[b.len()]`, the last entry of a row.
unfoldable pub last_of : List ℕ → ℕ
last_of [] = 0
last_of (x ∷ []) = x
last_of (x ∷ (y ∷ xs)) = last_of (y ∷ xs)

unfoldable pub levenshtein : List ℕ → List ℕ → ℕ
levenshtein a b = last_of (rows 0 (first_row 0 b) b a)

-- `chars().rev()`, in front of another text.
unfoldable pub rev_onto : List ℕ → List ℕ → List ℕ
rev_onto [] acc = acc
rev_onto (x ∷ xs) acc = rev_onto xs (x ∷ acc)
