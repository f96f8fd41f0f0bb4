-- ===== src/Common/Texts.antt =====
-- `String` and `str`, as the code uses them.
pub mod Trims
use Prim.Native.Nat.{ℕ, zero, suc, ◌-◌}
use Prim.Native.Char.{Char, code}
use Prim.Native.String.{String, ◌++◌, count}
use mathlib.Core.Bool.{Bool, true, false, ◌||◌, ◌&&◌}
use mathlib.Core.List.{List, [], ◌∷◌}
use mathlib.Core.Option.{Option, none, some}
pub use text.Mathlib.Text.{starts_with}
use aqua_rust.Common.Tests.{if◌then◌else◌, leb, ◌==◌}

-- The numbers of the characters.
abbrev pub codes : String → List ℕ
codes String.[] = []
codes (String.◌∷◌ c s) = code c ∷ codes s

-- `join`.
unfoldable pub join : String → List String → String
join sep [] = ""
join sep (s ∷ []) = s
join sep (s ∷ (t ∷ ts)) = s ++ (sep ++ join sep (t ∷ ts))

-- `replace(t, "")`, after some characters that belong to a match already.
unfoldable pub remove_from : String → ℕ → String → String
remove_from t n String.[] = ""
remove_from t (suc n) (String.◌∷◌ c s) = remove_from t n s
remove_from t zero (String.◌∷◌ c s) = elim (starts_with (String.◌∷◌ c s) t) [
  | true ↦ remove_from t (count t - 1) s
  | false ↦ String.◌∷◌ c (remove_from t zero s)
]

abbrev pub remove_all : String → String → String
remove_all t s = remove_from t 0 s

-- The text behind a number of characters.
unfoldable pub drop_chars : ℕ → String → String
drop_chars zero s = s
drop_chars (suc n) String.[] = ""
drop_chars (suc n) (String.◌∷◌ c s) = drop_chars n s

unfoldable pub take_chars : ℕ → String → String
take_chars zero s = ""
take_chars (suc n) String.[] = ""
take_chars (suc n) (String.◌∷◌ c s) = String.◌∷◌ c (take_chars n s)

unfoldable pub strip_prefix : String → String → Option String
unfolding drop_chars
strip_prefix t s = if starts_with s t then some (drop_chars (count t) s) else none

unfoldable pub ends_with : String → String → Bool
unfolding drop_chars
ends_with s t = elim (starts_with (drop_chars (count s - count t) s) t) [
  | true ↦ leb (count t) (count s)
  | false ↦ false
]

unfoldable pub strip_suffix : String → String → Option String
unfolding ends_with take_chars
strip_suffix t s = if ends_with s t then some (take_chars (count s - count t) s) else none

-- `char::is_whitespace`.
abbrev pub is_space : ℕ → Bool
is_space c =
    (leb 9 c && leb c 13)
    || (c == 32)
    || (c == 133)
    || (c == 160)
    || (c == 5760)
    || (leb 8192 c && leb c 8202)
    || (c == 8232)
    || (c == 8233)
    || (c == 8239)
    || (c == 8287)
    || (c == 12288)

-- `trim_start_matches` of one character, and `trim`.
unfoldable pub skip_while : (ℕ → Bool) → String → String
skip_while p String.[] = ""
skip_while p (String.◌∷◌ c s) = if p (code c) then skip_while p s else String.◌∷◌ c s

-- A character in front of a text that is trimmed at its end.
abbrev pub trim_front : Char → String → String
trim_front c String.[] = if is_space (code c) then "" else String.◌∷◌ c ""
trim_front c (String.◌∷◌ d t) = String.◌∷◌ c (String.◌∷◌ d t)

unfoldable pub trim_end : String → String
trim_end String.[] = ""
trim_end (String.◌∷◌ c s) = trim_front c (trim_end s)

unfoldable pub trim : String → String
unfolding skip_while trim_end
trim s = trim_end (skip_while is_space s)
