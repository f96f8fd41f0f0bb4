-- ===== src/Gateway/Validator/Correct.antt =====
-- src/gateway/validator.rs: the correction of a model's name. The catalogue, a HashMap, is a list in
-- the order of its iteration.
pub mod Known
use aqua_rust.Common.{
  ℕ, ◌+◌, max, Bool, true, false, ◌&&◌, ◌||◌, Option, none, some, List, [], ◌∷◌, map, any, is_empty,
  length, ltb, leb, ◌==◌, if◌then◌else◌,
}
use aqua_rust.Gateway.Floats.{Floats, lit}
use aqua_rust.Gateway.Validator.{normalize_model_id, levenshtein, rev_onto}

-- `char::is_whitespace`.
unfoldable pub is_whitespace : ℕ → Bool
is_whitespace c =
    (leb 9 c && leb c 13)
    || (c == 32)
    || (c == 133)
    || (c == 160)
    || (c == 5760)
    || (leb 8192 c && leb c 8202)
    || (c == 8232)
    || (c == 8233)
    || (c == 8239)
    || (c == 8287)
    || (c == 12288)

unfoldable pub trim_start : List ℕ → List ℕ
trim_start [] = []
trim_start (c ∷ s) = if is_whitespace c then trim_start s else c ∷ s

unfoldable pub trim : List ℕ → List ℕ
trim s = rev_onto (trim_start (rev_onto (trim_start s) [])) []

-- `to_lowercase`, on the capitals of ASCII.
abbrev pub to_lower : List ℕ → List ℕ
to_lower s = map (λ c. if leb 65 c && leb c 90 then c + 32 else c) s

unfoldable pub is_eq : List ℕ → List ℕ → Bool
is_eq [] [] = true
is_eq [] (d ∷ t) = false
is_eq (c ∷ s) [] = false
is_eq (c ∷ s) (d ∷ t) = (c == d) && is_eq s t

unfoldable pub is_prefix : List ℕ → List ℕ → Bool
is_prefix [] s = true
is_prefix (d ∷ t) [] = false
is_prefix (d ∷ t) (c ∷ s) = (c == d) && is_prefix t s

-- `s.contains(t)`.
unfoldable pub contains : List ℕ → List ℕ → Bool
contains [] t = is_prefix t []
contains (c ∷ s) t = is_prefix t (c ∷ s) || contains s t

-- `len`, in bytes of UTF-8.
unfoldable pub byte_len : List ℕ → ℕ
byte_len [] = 0
byte_len (c ∷ s) =
    (if ltb c 128 then 1 else if ltb c 2048 then 2 else if ltb c 65536 then 3 else 4) + byte_len s

-- An entry of the catalogue: its key and the field that the correction reads.
pub record ModelInfo : Type 0 where
  pub id : List ℕ
  pub extra_aliases : List (List ℕ)

-- The first entry that passes a test, by its id.
unfoldable pub find_id : (ModelInfo → Bool) → List ModelInfo → Option (List ℕ)
find_id p [] = none
find_id p (x ∷ xs) = if p x then some x.id else find_id p xs

unfoldable pub has_similar_separators : List ℕ → List ℕ → Bool
has_similar_separators norm id =
    contains (normalize_model_id id) norm || contains norm (normalize_model_id id)

-- The answer of a level, or that of the levels after it.
abbrev pub or_else : Option (List ℕ) → List ℕ → List ℕ
or_else none rest = rest
or_else (some id) rest = id

module _ ⦃f : Floats⦄ where
  open f use {F, ratio, sub, div, of_u64, lt}

  unfoldable pub similarity_ratio : List ℕ → List ℕ → F
  similarity_ratio a b =
      let max_len = max (length a) (length b) in
      if is_eq a b
      then lit 1
      else if max_len == 0
      then lit 1
      else sub (lit 1) (div (of_u64 (levenshtein a b)) (of_u64 max_len))

  -- The body of the loop of the sixth level; the best so far is a name and its similarity.
  unfoldable pub better : List ℕ → ModelInfo → Option (List ℕ × F) → Option (List ℕ × F)
  better m x none =
      if lt (ratio 85 100) (similarity_ratio m x.id)
      then some (x.id, similarity_ratio m x.id)
      else none
  better m x (some (id, s)) =
      if lt (ratio 85 100) (similarity_ratio m x.id) && lt s (similarity_ratio m x.id)
      then some (x.id, similarity_ratio m x.id)
      else some (id, s)

  unfoldable pub most_similar : List ℕ → Option (List ℕ × F) → List ModelInfo → Option (List ℕ)
  most_similar m none [] = none
  most_similar m (some (id, s)) [] = some id
  most_similar m best (x ∷ xs) = most_similar m (better m x best) xs

  -- The six levels, on the trimmed name.
  unfoldable pub correct : List ModelInfo → List ℕ → List ℕ
  correct catalog m =
      let norm = normalize_model_id m in
      or_else (find_id (λ x. is_eq x.id m) catalog) (
        or_else (find_id (λ x. any (λ a. is_eq a m) x.extra_aliases) catalog) (
          or_else (find_id (λ x. is_eq (to_lower x.id) (to_lower m)) catalog) (
            or_else (find_id (λ x. is_eq (normalize_model_id x.id) norm) catalog) (
              or_else
                (if leb 4 (byte_len norm)
                  then find_id (λ x. has_similar_separators norm x.id) catalog
                  else none)
                (or_else (most_similar m none catalog) m)))))

  unfoldable pub validate_and_correct_model : List ModelInfo → List ℕ → List ℕ
  validate_and_correct_model catalog model_name =
      if is_empty (trim model_name) then [] else correct catalog (trim model_name)
