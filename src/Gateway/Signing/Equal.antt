-- ===== src/Gateway/Signing/Equal.antt =====
-- src/gateway/signing.rs: `constant_eq` is equality.
use Prim.Native.Nat.{bit_or, bit_xor, bit_or-bitwise, bit_xor-bitwise, digits, differ}
use aqua_rust.Common.{
  ℕ, zero, suc, ◌/◌, ◌%◌, ◌≤◌, ◌≡◌, ◌↔◌, refl, ◌∙◌, sym, ap, subst, max, true, [], ◌∷◌, length,
  ◌==◌, arith, Bool-cases, inl, inr,
}
use aqua_rust.Gateway.Signing.{Text, differences, constant_eq}

differ-zero : (x y : ℕ) → differ x y ≡ 0 → x ≡ y
differ-zero zero y e = sym e
differ-zero (suc x) zero e = e
differ-zero (suc x) (suc y) e = ap suc (differ-zero x y e)

xor_digits : (n a b : ℕ) → a ≤ n → digits (λ c. c) differ n a b ≡ 0 → a ≡ b
xor_digits zero a b l e = omega arith
xor_digits (suc n) zero b l e = sym e
xor_digits (suc n) (suc a) b l e =
    let rest : digits (λ c. c) differ n (suc a / 2) (b / 2) ≡ 0 = omega arith in
    let digit : differ (suc a % 2) (b % 2) ≡ 0 = omega arith in
    omega (
      arith,
      xor_digits n (suc a / 2) (b / 2) (omega arith) rest,
      differ-zero (suc a % 2) (b % 2) digit,
    )

or_digits : (n a b : ℕ) → a ≤ n → digits (λ c. c) max n a b ≡ 0 → (a ≡ 0) × (b ≡ 0)
or_digits zero a b l e = (omega arith, e)
or_digits (suc n) zero b l e = (refl, e)
or_digits (suc n) (suc a) b l e =
    let rest : digits (λ c. c) max n (suc a / 2) (b / 2) ≡ 0 = omega arith in
    let digit : max (suc a % 2) (b % 2) ≡ 0 = omega arith in
    let (h, k) = or_digits n (suc a / 2) (b / 2) (omega arith) rest in (omega arith, omega arith)

bit_xor-eq : (a b : ℕ) → bit_xor a b ≡ 0 → a ≡ b
bit_xor-eq a b e = xor_digits a a b (omega arith) (sym (λ i. bit_xor-bitwise a b i) ∙ e)

bit_or-zeros : (a b : ℕ) → bit_or a b ≡ 0 → (a ≡ 0) × (b ≡ 0)
bit_or-zeros a b e = or_digits a a b (omega arith) (sym (λ i. bit_or-bitwise a b i) ∙ e)

differ_self : (x : ℕ) → differ x x ≡ 0
differ_self zero = refl
differ_self (suc x) = differ_self x

xor_digits_self : (n a : ℕ) → a ≤ n → digits (λ c. c) differ n a a ≡ 0
xor_digits_self zero a l = omega arith
xor_digits_self (suc n) zero l = refl
xor_digits_self (suc n) (suc a) l =
    omega (arith, xor_digits_self n (suc a / 2) (omega arith), differ_self (suc a % 2))

bit_xor_self : (a : ℕ) → bit_xor a a ≡ 0
bit_xor_self a = (λ i. bit_xor-bitwise a a i) ∙ xor_digits_self a a (omega arith)

bit_or_zero : (b : ℕ) → bit_or 0 b ≡ b
bit_or_zero b = λ i. bit_or-bitwise 0 b i

differences-eq :
    (acc : ℕ) (a b : Text) → length a ≡ length b → differences acc a b ≡ 0 → (acc ≡ 0) × (a ≡ b)
unfolding differences
differences-eq acc [] [] l e = (e, refl)
differences-eq acc [] (y ∷ b) l e = absurd (omega arith)
differences-eq acc (x ∷ a) [] l e = absurd (omega arith)
differences-eq acc (x ∷ a) (y ∷ b) l e =
    let (h, k) = differences-eq (bit_or acc (bit_xor x y)) a b (omega arith) e in
    let (zero_acc, same) = bit_or-zeros acc (bit_xor x y) h in
    let head = bit_xor-eq x y same in (zero_acc, cc)

differences_self : (a : Text) → differences 0 a a ≡ 0
unfolding differences
differences_self [] = refl
differences_self (x ∷ a) =
    ap (λ n. differences n a a) (bit_or_zero (bit_xor x x) ∙ bit_xor_self x) ∙ differences_self a

-- The comparison in constant time accepts exactly equal texts.
pub constant_eq_iff : (a b : Text) → (constant_eq a b ≡ true) ↔ (a ≡ b)
unfolding constant_eq
constant_eq_iff a b = (
  λ e. elim (Bool-cases (length a == length b)) [
    | inl h ↦ (differences-eq 0 a b (ground arith) (ground arith)).1
    | inr h ↦ absurd (ground arith)
  ],
  λ e. subst (λ c. constant_eq a c ≡ true) e (ground (arith, differences_self a)),
)
