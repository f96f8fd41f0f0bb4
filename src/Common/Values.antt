-- ===== src/Common/Values.antt =====
-- Results, signed and fixed-width integers, and sorting, as the components share them.
use Prim.Native.Nat.{ℕ, ◌%◌, ◌-◌}
use Prim.Native.Char.{Char, code}
use Prim.Native.String.{String, compare, char_at}
use mathlib.Core.Path.{◌≡◌, refl}
use mathlib.Core.Logic.{◌⊎◌, inl, inr}
use mathlib.Core.Bool.{Bool, true, false, ◌&&◌}
use mathlib.Core.List.{List, [], ◌∷◌}
use mathlib.Core.Option.{none, some}
use text.Mathlib.Text.{find?, is_lt}
use aqua_rust.Common.Tests.{if◌then◌else◌, is_same, leb}

pub data Result {ℓ κ} (E : Type ℓ) (A : Type κ) : Type (ℓ ⊔ κ) where
  ok : A → Result E A
  err : E → Result E A

pub Result-cases {ℓ κ} :
    {E : Type ℓ} {A : Type κ} (r : Result E A) → ((e : E) × (r ≡ err e)) ⊎ ((a : A) × (r ≡ ok a))
Result-cases (ok a) = inr (a, refl)
Result-cases (err e) = inl (e, refl)

-- `negsuc n` is -(n + 1).
pub data ℤ : Type 0 where
  pos : ℕ → ℤ
  negsuc : ℕ → ℤ

-- `max(0)` of an integer, as a natural number.
abbrev pub pos_part : ℤ → ℕ
pos_part (pos n) = n
pos_part (negsuc n) = 0

abbrev pub u64 : ℕ → ℕ
u64 n = n % 18446744073709551616

abbrev pub u8 : ℕ → ℕ
u8 n = n % 256

-- `str::to_lowercase`, on the capitals of ASCII.
lower_char : Char → Char
lower_char c =
    if leb 65 (code c) && leb (code c) 90
    then char_at "abcdefghijklmnopqrstuvwxyz" (code c - 65)
    else c

unfoldable pub to_lowercase : String → String
unfolding lower_char
to_lowercase String.[] = ""
to_lowercase (String.◌∷◌ c s) = String.◌∷◌ (lower_char c) (to_lowercase s)

-- `str::contains` and `str::is_empty`.
unfoldable pub str_contains : String → String → Bool
str_contains s t = elim (find? s t) [ none ↦ false | some i ↦ true ]

abbrev pub str_is_empty : String → Bool
str_is_empty s = is_same s ""

module _ {ℓ} {A : Type ℓ} (before : A → A → Bool) where
  -- `slice::sort_by`, a stable sort: an element goes behind those that stand strictly before it.
  unfoldable pub insert_by : A → List A → List A
  insert_by x [] = x ∷ []
  insert_by x (y ∷ ys) = if before y x then y ∷ insert_by x ys else x ∷ y ∷ ys

  unfoldable pub sort_by : List A → List A
  unfolding insert_by
  sort_by [] = []
  sort_by (x ∷ xs) = insert_by x (sort_by xs)

-- The order of `str`, by bytes.
abbrev pub str_before : String → String → Bool
str_before s t = is_lt (compare s t)

-- An early return if the test fails.
abbrev pub guard {κ} : {E : Type κ} → Bool → E → Result E (Unit {0})
guard false failure = err failure
guard true failure = ok tt

-- `?` on a result, and on one whose value is not used.
infixl 5 ◌>>=◌
abbrev pub ◌>>=◌ {ℓ κ μ} :
    {E : Type ℓ} {A : Type κ} {B : Type μ} → Result E A → (A → Result E B) → Result E B
err failure >>= next = err failure
ok x >>= next = next x

infixl 5 ◌>>◌
abbrev pub ◌>>◌ {κ μ} : {E : Type κ} {B : Type μ} → Result E (Unit {0}) → Result E B → Result E B
first >> rest = first >>= λ u. rest

pub ok-eq-ok {ℓ κ} : {E : Type ℓ} {A : Type κ} {a b : A} → Path (Result E A) (ok a) (ok b) → a ≡ b
ok-eq-ok h = cc

pub guard-eq-ok {κ} : {E : Type κ} (b : Bool) (failure : E) → guard b failure ≡ ok tt → b ≡ true
guard-eq-ok false failure h = cc
guard-eq-ok true failure h = refl

-- What is known when a step and the rest have succeeded.
pub >>=-eq-ok {ℓ κ μ} :
    {E : Type ℓ} {A : Type κ} {B : Type μ} (step : Result E A) (next : A → Result E B) {y : B}
    → (step >>= next) ≡ ok y
    → (x : A) × (step ≡ ok x) × (next x ≡ ok y)
>>=-eq-ok (err failure) next done = cc
>>=-eq-ok (ok x) next done = (x, refl, done)
