-- ===== src/Platform/Username/Runs.antt =====
-- src/platform/guard.rs: the loop finds the longest run of letters.
use aqua_rust.Common.{
  ℕ, ◌+◌, ◌≤◌, ◌≡◌, refl, ◌∙◌, sym, ap, Bool, true, false, not, ◌&&◌, ◌||◌, none, some, List, [],
  ◌∷◌, any, length, ltb, leb, max, if◌then◌else◌, arith, Bool-cases, inl, inr,
}
use aqua_rust.Platform.Username.{Scan, scan, scan_char, is_letter, is_digit, is_random_username}

-- The letters that a text begins with.
unfoldable pub lead : List ℕ → ℕ
lead [] = 0
lead (c ∷ cs) = if is_letter c then lead cs + 1 else 0

-- The longest run of letters.
unfoldable pub longest : List ℕ → ℕ
longest [] = 0
longest (c ∷ cs) = max (lead (c ∷ cs)) (longest cs)

abbrev pub is_special : ℕ → Bool
is_special c = not (is_letter c || is_digit c)

-- The verdict on a text after some state of the loop.
verdict : Scan → List ℕ → Bool
verdict s cs =
    not (any is_special cs)
    && (s.has_letter || any is_letter cs)
    && (s.has_digit || any is_digit cs)
    && leb (max s.max_letter_run (max (s.letter_run + lead cs) (longest cs))) 3

lead-le-longest : (cs : List ℕ) → lead cs ≤ longest cs
unfolding lead longest
lead-le-longest [] = omega arith
lead-le-longest (c ∷ cs) = omega arith

letter_no_digit : (c : ℕ) → is_letter c ≡ true → is_digit c ≡ false
letter_no_digit c h = ground arith

letter_max :
    (mx run ld lg : ℕ)
    → max (if ltb mx (run + 1) then run + 1 else mx) (max (run + 1 + ld) lg)
      ≡ max mx (max (run + (ld + 1)) (max (ld + 1) lg))
letter_max mx run ld lg = ground arith

digit_max :
    (mx run ld lg : ℕ)
    → run ≤ mx
    → ld ≤ lg
    → max mx (max (0 + ld) lg) ≡ max mx (max (run + 0) (max 0 lg))
digit_max mx run ld lg l k = omega arith

or_false : (b : Bool) → (b || false) ≡ b
or_false true = refl
or_false false = refl

or_true : (b : Bool) → (b || true) ≡ true
or_true true = refl
or_true false = refl

abbrev with_letter : Scan → Scan
with_letter s = record s {
  has_letter = true;
  letter_run = s.letter_run + 1;
  max_letter_run =
      if ltb s.max_letter_run (s.letter_run + 1) then s.letter_run + 1 else s.max_letter_run;
}

abbrev with_digit : Scan → Scan
with_digit s = record s { has_digit = true; letter_run = 0 }

verdict-letter :
    (s : Scan) (c : ℕ) (cs : List ℕ)
    → is_letter c ≡ true
    → verdict (with_letter s) cs ≡ verdict s (c ∷ cs)
unfolding verdict lead longest
verdict-letter s c cs h =
    rw (h, letter_no_digit c h, or_true s.has_letter)
      (ap (λ n. not (any is_special cs) && true && (s.has_digit || any is_digit cs) && leb n 3)
        (letter_max s.max_letter_run s.letter_run (lead cs) (longest cs)))

verdict-digit :
    (s : Scan) (c : ℕ) (cs : List ℕ)
    → is_letter c ≡ false
    → is_digit c ≡ true
    → s.letter_run ≤ s.max_letter_run
    → verdict (with_digit s) cs ≡ verdict s (c ∷ cs)
unfolding verdict lead longest
verdict-digit s c cs h k l =
    rw (h, k, or_true s.has_digit)
      (ap (λ n. not (any is_special cs) && (s.has_letter || any is_letter cs) && true && leb n 3)
        (digit_max s.max_letter_run s.letter_run (lead cs) (longest cs) l (lead-le-longest cs)))

verdict-special :
    (s : Scan) (c : ℕ) (cs : List ℕ)
    → is_letter c ≡ false
    → is_digit c ≡ false
    → verdict s (c ∷ cs) ≡ false
unfolding verdict
verdict-special s c cs h k = rw (h, k) refl

scan-end : (s : Scan) → s.letter_run ≤ s.max_letter_run → scan s [] ≡ verdict s []
unfolding scan verdict lead longest
scan-end s l =
    let largest : max s.max_letter_run (max (s.letter_run + 0) 0) ≡ s.max_letter_run =
      omega arith in
    rw (largest, or_false s.has_letter, or_false s.has_digit) refl

scan-step :
    (s s' : Scan) (c : ℕ) (cs : List ℕ) → scan_char s c ≡ some s' → scan s (c ∷ cs) ≡ scan s' cs
unfolding scan
scan-step s s' c cs e = rw (e, scan) refl

scan-stop : (s : Scan) (c : ℕ) (cs : List ℕ) → scan_char s c ≡ none → scan s (c ∷ cs) ≡ false
unfolding scan
scan-stop s c cs e = rw (e, scan) refl

scan-verdict : (s : Scan) (cs : List ℕ) → s.letter_run ≤ s.max_letter_run → scan s cs ≡ verdict s cs
unfolding scan_char
scan-verdict s [] l = scan-end s l
scan-verdict s (c ∷ cs) l = elim (Bool-cases (is_letter c)) [
  | inl h ↦
      scan-step s (with_letter s) c cs (rw h refl)
      ∙ scan-verdict (with_letter s) cs (ground arith)
      ∙ verdict-letter s c cs h
  | inr h ↦ elim (Bool-cases (is_digit c)) [
    | inl k ↦
        scan-step s (with_digit s) c cs (rw (h, k) refl)
        ∙ scan-verdict (with_digit s) cs (omega arith)
        ∙ verdict-digit s c cs h k l
    | inr k ↦ scan-stop s c cs (rw (h, k) refl) ∙ sym (verdict-special s c cs h k)
  ]
]

-- A name counts as random exactly when it has four characters or more, of them only letters and
-- digits and some of both, and no run of letters is longer than three.
pub is_random_username_eq :
    (u : List ℕ)
    → is_random_username u ≡ (
        leb 4 (length u)
        && not (any is_special u)
        && any is_letter u
        && any is_digit u
        && leb (longest u) 3)
unfolding is_random_username verdict
is_random_username_eq u = elim (Bool-cases (ltb (length u) 4)) [
  | inl h ↦ rw h (ground arith)
  | inr h ↦
      let long : leb 4 (length u) ≡ true = ground arith in
      let largest : max 0 (max (0 + lead u) (longest u)) ≡ longest u =
        omega (arith, lead-le-longest u) in
      rw (h, long)
        (scan-verdict
            (record { has_letter = false; has_digit = false; letter_run = 0; max_letter_run = 0 }) u
            (omega arith)
          ∙ ap (λ n. not (any is_special u) && any is_letter u && any is_digit u && leb n 3)
              largest)
]
