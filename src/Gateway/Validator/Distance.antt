-- ===== src/Gateway/Validator/Distance.antt =====
-- src/gateway/validator.rs: the table of `levenshtein` holds the least number of edits.
use aqua_rust.Common.{
  ℕ, ◌+◌, ◌≤◌, ◌≡◌, refl, ◌∙◌, sym, ap, subst, min, ◌⊎◌, inl, inr, List, [], ◌∷◌, ◌++◌, length,
  arith,
}
use aqua_rust.Gateway.Validator.{
  cost, row_from, next_row, rows, first_row, last_of, levenshtein, rev_onto,
}

-- To turn one text into another by single edits, with the number of the edits: a character is
-- deleted, inserted, or replaced, which costs nothing where it stays the same.
pub data Edits : List ℕ → List ℕ → ℕ → Type 0 where
  finished : Edits [] [] 0
  deletes : {a b : List ℕ} {n : ℕ} (x : ℕ) → Edits a b n → Edits (x ∷ a) b (n + 1)
  inserts : {a b : List ℕ} {n : ℕ} (y : ℕ) → Edits a b n → Edits a (y ∷ b) (n + 1)
  replaces : {a b : List ℕ} {n : ℕ} (x y : ℕ) → Edits a b n → Edits (x ∷ a) (y ∷ b) (n + cost x y)

-- The distance by recursion on both texts.
dist : List ℕ → List ℕ → ℕ
dist [] b = length b
dist (x ∷ a) [] = length (x ∷ a)
dist (x ∷ a) (y ∷ b) = min (min (dist a (y ∷ b) + 1) (dist (x ∷ a) b + 1)) (dist a b + cost x y)

-- The row of the table for one text, `rb` being the reversed start of the other.
spec_row : List ℕ → List ℕ → List ℕ → List ℕ
spec_row ra rb [] = dist ra rb ∷ []
spec_row ra rb (c ∷ b) = dist ra rb ∷ spec_row ra (c ∷ rb) b

tail : List ℕ → List ℕ
tail [] = []
tail (x ∷ xs) = xs

first_row_lem : (rb b : List ℕ) → first_row (length rb) b ≡ spec_row [] rb b
unfolding first_row spec_row dist
first_row_lem rb [] = refl
first_row_lem rb (c ∷ b) =
    let shift : length rb + 1 ≡ length (c ∷ rb) = omega arith in
    ap (λ n. length rb ∷ first_row n b) shift ∙ ap (λ r. length rb ∷ r) (first_row_lem (c ∷ rb) b)

spec_row-first : (ra rb b : List ℕ) → spec_row ra rb b ≡ dist ra rb ∷ tail (spec_row ra rb b)
unfolding spec_row tail
spec_row-first ra rb [] = refl
spec_row-first ra rb (c ∷ b) = refl

row_from_lem :
    (ca : ℕ) (ra rb b : List ℕ)
    → row_from ca (dist (ca ∷ ra) rb) (dist ra rb) (tail (spec_row ra rb b)) b
      ≡ tail (spec_row (ca ∷ ra) rb b)
unfolding row_from spec_row tail dist
row_from_lem ca ra rb [] = refl
row_from_lem ca ra rb (cb ∷ b) =
    let cell = dist (ca ∷ ra) (cb ∷ rb) in
    ap (λ r. row_from ca (dist (ca ∷ ra) rb) (dist ra rb) r (cb ∷ b))
      (spec_row-first ra (cb ∷ rb) b)
    ∙ ap (λ r. cell ∷ r) (row_from_lem ca ra (cb ∷ rb) b)
    ∙ sym (spec_row-first (ca ∷ ra) (cb ∷ rb) b)

next_row_lem :
    (ca : ℕ) (ra b : List ℕ)
    → next_row (length ra) ca (spec_row ra [] b) b ≡ spec_row (ca ∷ ra) [] b
unfolding next_row dist
next_row_lem ca ra b =
    let head : length ra + 1 ≡ dist (ca ∷ ra) [] = omega arith in
    ap (λ r. next_row (length ra) ca r b) (spec_row-first ra [] b)
    ∙ ap (λ n. n ∷ row_from ca n (dist ra []) (tail (spec_row ra [] b)) b) head
    ∙ ap (λ r. dist (ca ∷ ra) [] ∷ r) (row_from_lem ca ra [] b)
    ∙ sym (spec_row-first (ca ∷ ra) [] b)

rows_lem :
    (ra b a : List ℕ) → rows (length ra) (spec_row ra [] b) b a ≡ spec_row (rev_onto a ra) [] b
unfolding rows rev_onto
rows_lem ra b [] = refl
rows_lem ra b (ca ∷ a) =
    let shift : length ra + 1 ≡ length (ca ∷ ra) = omega arith in
    ap (λ r. rows (length ra + 1) r b a) (next_row_lem ca ra b)
    ∙ ap (λ n. rows n (spec_row (ca ∷ ra) [] b) b a) shift
    ∙ rows_lem (ca ∷ ra) b a

last_of-spec_row : (ra rb b : List ℕ) → last_of (spec_row ra rb b) ≡ dist ra (rev_onto b rb)
unfolding last_of spec_row rev_onto
last_of-spec_row ra rb [] = refl
last_of-spec_row ra rb (c ∷ b) =
    ap (λ r. last_of (dist ra rb ∷ r)) (spec_row-first ra (c ∷ rb) b)
    ∙ ap last_of (sym (spec_row-first ra (c ∷ rb) b))
    ∙ last_of-spec_row ra (c ∷ rb) b

-- The table computes the distance of the reversed texts.
levenshtein-dist : (a b : List ℕ) → levenshtein a b ≡ dist (rev_onto a []) (rev_onto b [])
unfolding levenshtein
levenshtein-dist a b =
    ap (λ r. last_of (rows 0 r b a)) (first_row_lem [] b)
    ∙ ap last_of (rows_lem [] b a)
    ∙ last_of-spec_row (rev_onto a []) [] b

insert_all : (b : List ℕ) → Edits [] b (length b)
insert_all [] = Edits.finished
insert_all (y ∷ b) = subst (Edits [] (y ∷ b)) (omega arith) (Edits.inserts y (insert_all b))

delete_all : (a : List ℕ) → Edits a [] (length a)
delete_all [] = Edits.finished
delete_all (x ∷ a) = subst (Edits (x ∷ a) []) (omega arith) (Edits.deletes x (delete_all a))

-- One of the three numbers is the least.
least-cases : (k m n : ℕ) → (min (min k m) n ≡ k) ⊎ ((min (min k m) n ≡ m) ⊎ (min (min k m) n ≡ n))
least-cases k m n = ground arith

dist-Edits : (a b : List ℕ) → Edits a b (dist a b)
unfolding dist
dist-Edits [] b = insert_all b
dist-Edits (x ∷ a) [] = delete_all (x ∷ a)
dist-Edits (x ∷ a) (y ∷ b) =
    elim (least-cases (dist a (y ∷ b) + 1) (dist (x ∷ a) b + 1) (dist a b + cost x y)) [
      | inl e ↦ subst (Edits (x ∷ a) (y ∷ b)) (sym e) (Edits.deletes x (dist-Edits a (y ∷ b)))
      | inr (inl e) ↦ subst (Edits (x ∷ a) (y ∷ b)) (sym e) (Edits.inserts y (dist-Edits (x ∷ a) b))
      | inr (inr e) ↦ subst (Edits (x ∷ a) (y ∷ b)) (sym e) (Edits.replaces x y (dist-Edits a b))
    ]

dist-delete-le : (x : ℕ) (a b : List ℕ) → dist (x ∷ a) b ≤ dist a b + 1
unfolding dist
dist-delete-le x [] [] = omega arith
dist-delete-le x (z ∷ a) [] = omega arith
dist-delete-le x a (y ∷ b) = omega arith

dist-insert-le : (y : ℕ) (a b : List ℕ) → dist a (y ∷ b) ≤ dist a b + 1
unfolding dist
dist-insert-le y [] b = omega arith
dist-insert-le y (x ∷ a) b = omega arith

dist-least : {a b : List ℕ} {n : ℕ} → Edits a b n → dist a b ≤ n
unfolding dist
dist-least Edits.finished = omega arith
dist-least (Edits.deletes {a} {b} x e) = omega (arith, dist-least e, dist-delete-le x a b)
dist-least (Edits.inserts {a} {b} y e) = omega (arith, dist-least e, dist-insert-le y a b)
dist-least (Edits.replaces x y e) = omega (arith, dist-least e)

-- Edits read from the other end.
reverse-Edits :
    {a b c d : List ℕ} {n m : ℕ}
    → Edits a b n
    → Edits c d m
    → Edits (rev_onto a c) (rev_onto b d) (n + m)
unfolding rev_onto
reverse-Edits {a} {b} {c} {d} Edits.finished f = subst (Edits c d) (omega arith) f
reverse-Edits {c = c} {d = d} {m = m} (Edits.deletes {a} {b} {n} x e) f =
    subst (Edits (rev_onto a (x ∷ c)) (rev_onto b d)) (omega arith)
      (reverse-Edits e (Edits.deletes x f))
reverse-Edits {c = c} {d = d} {m = m} (Edits.inserts {a} {b} {n} y e) f =
    subst (Edits (rev_onto a c) (rev_onto b (y ∷ d))) (omega arith)
      (reverse-Edits e (Edits.inserts y f))
reverse-Edits {c = c} {d = d} {m = m} (Edits.replaces {a} {b} {n} x y e) f =
    subst (Edits (rev_onto a (x ∷ c)) (rev_onto b (y ∷ d))) (omega arith)
      (reverse-Edits e (Edits.replaces x y f))

rev_onto-rev_onto : (a c d : List ℕ) → rev_onto (rev_onto a c) d ≡ rev_onto c (a ++ d)
unfolding rev_onto
rev_onto-rev_onto [] c d = refl
rev_onto-rev_onto (x ∷ a) c d = rev_onto-rev_onto a (x ∷ c) d

append_nil : (a : List ℕ) → a ++ [] ≡ a
append_nil [] = refl
append_nil (x ∷ a) = ap (λ r. x ∷ r) (append_nil a)

rev_rev : (a : List ℕ) → rev_onto (rev_onto a []) [] ≡ a
unfolding rev_onto
rev_rev a = rev_onto-rev_onto a [] [] ∙ append_nil a

-- The distance is the number of edits of some way from one text to the other, and no way has fewer.
pub levenshtein-Edits :
    (a b : List ℕ) → Edits a b (levenshtein a b) × ((n : ℕ) → Edits a b n → levenshtein a b ≤ n)
levenshtein-Edits a b =
    let ra = rev_onto a [] in
    let rb = rev_onto b [] in
    let back : Edits (rev_onto ra []) (rev_onto rb []) (dist ra rb + 0) =
      reverse-Edits (dist-Edits ra rb) Edits.finished in
    (
      subst (λ k. Edits a b k) (omega (arith, levenshtein-dist a b))
          (subst (λ x. Edits x b (dist ra rb + 0)) (rev_rev a)
            (subst (λ y. Edits (rev_onto ra []) y (dist ra rb + 0)) (rev_rev b) back)),
      λ n e. omega (arith, levenshtein-dist a b, dist-least (reverse-Edits e Edits.finished)),
    )
