-- ===== src/Gateway/Floats.antt =====
-- Rust's `f64` as the gateway uses it: an interface of operations, and what IEEE 754 says of them.
use aqua_rust.Common.{
  ℕ, ◌≤◌, ◌≡◌, Bool, true, false, if◌then◌else◌, leb, ltb, ◌+◌, ◌-◌, ◌*◌, ◌/◌, refl, arith,
}

-- `ratio p q` is the literal p / q, `of_u64` the cast, and `total_lt` the order of `total_cmp`.
pub record Floats : Type 1 where
  pub F : Type 0
  pub ratio : ℕ → ℕ → F
  pub of_u64 : ℕ → F
  pub add : F → F → F
  pub sub : F → F → F
  pub mul : F → F → F
  pub div : F → F → F
  pub lt : F → F → Bool
  pub le : F → F → Bool
  pub total_lt : F → F → Bool
  pub is_finite : F → Bool

module _ ⦃f : Floats⦄ where
  open f use {F, ratio, lt, le, is_finite}

  -- An integer literal, `100.0`.
  abbrev pub lit : ℕ → F
  lit n = ratio n 1

  -- `f64::clamp`, where `low` is at most `high`.
  unfoldable pub clamp : F → F → F → F
  clamp x low high = let y = if lt x low then low else x in if lt high y then high else y

  -- `f64::min` and `f64::max` of two numbers that are not NaN.
  abbrev pub float_min : F → F → F
  float_min x y = if lt y x then y else x

  abbrev pub float_max : F → F → F
  float_max x y = if lt x y then y else x

-- The order of the finite values is total, and the literals of the program are finite and ordered
-- as the numbers that they spell.
pub record FloatLaws (f : Floats) : Type 0 where
  pub le_of_not_lt :
      (x y : f.F) → f.is_finite x ≡ true → f.is_finite y ≡ true → f.lt x y ≡ false → f.le y x ≡ true
  pub le_refl : (x : f.F) → f.is_finite x ≡ true → f.le x x ≡ true
  pub lit_finite : (n : ℕ) → n ≤ 1000000 → f.is_finite (f.ratio n 1) ≡ true
  pub lit_le : (m n : ℕ) → m ≤ n → n ≤ 1000000 → f.le (f.ratio m 1) (f.ratio n 1) ≡ true
  -- A finite value is not both below `x` and at least `x`.
  pub not_lt_of_le : (x y : f.F) → f.le x y ≡ true → f.lt y x ≡ false

module _ ⦃f : Floats⦄ (laws : FloatLaws f) where
  open f use {F, lt, le, is_finite}

  -- A clamped finite value lies in the range.
  pub clamp_bounds :
      (x : F) (m n : ℕ)
      → is_finite x ≡ true
      → m ≤ n
      → n ≤ 1000000
      → (le (lit m) (clamp x (lit m) (lit n)) ≡ true)
        × (le (clamp x (lit m) (lit n)) (lit n) ≡ true)
  unfolding clamp
  clamp_bounds x m n h p q = ground (
    arith,
    laws.le_of_not_lt x (lit m) h,
    laws.le_of_not_lt (lit n) x,
    laws.le_of_not_lt (lit n) (lit m),
    laws.le_refl (lit m),
    laws.le_refl (lit n),
    laws.lit_finite m,
    laws.lit_finite n,
    laws.lit_le m n p q,
    h,
  )

-- Whole numbers of thousandths, rounded down, for evaluations at concrete inputs.
abbrev pub thousandths : Floats
thousandths = record {
  F = ℕ;
  ratio = λ p q. p * 1000 / q;
  of_u64 = λ n. n * 1000;
  add = λ a b. a + b;
  sub = λ a b. a - b;
  mul = λ a b. a * b / 1000;
  div = λ a b. a * 1000 / b;
  lt = ltb;
  le = leb;
  total_lt = ltb;
  is_finite = λ x. true;
}

pub thousandths_laws : FloatLaws thousandths
thousandths_laws = record {
  le_of_not_lt = λ x y _ _ h. ground arith;
  le_refl = λ x _. ground arith;
  lit_finite = λ n _. refl;
  lit_le = λ m n p _. ground arith;
  not_lt_of_le = λ x y h. ground arith;
}
