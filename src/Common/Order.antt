-- ===== src/Common/Order.antt =====
-- Lists: membership in a filtered and in a sorted list, and the order of a list that is sorted by
-- falling keys.
use Prim.Native.Nat.{ℕ, ◌≤◌}
use mathlib.Core.Path.{◌≡◌, refl, subst, sym}
use mathlib.Core.Logic.{inl, inr}
use mathlib.Core.Bool.{Bool, true}
use mathlib.Core.List.{List, [], ◌∷◌, Memᴰ}
use native.Mathlib.Omega.{arith}
use aqua_rust.Common.Tests.{Bool-cases, ltb}
use aqua_rust.Common.Lists.{All, All-map, filter}
use aqua_rust.Common.Values.{insert_by, sort_by}

module _ {ℓ} {A : Type ℓ} where
  pub All-Memᴰ {κ} : (P : A → Type κ) (xs : List A) (x : A) → All P xs → Memᴰ x xs → P x
  All-Memᴰ P [] x h m = elim m [ ]
  All-Memᴰ P (y ∷ ys) x h (Memᴰ.head e) = subst P (cc) h.0
  All-Memᴰ P (y ∷ ys) x h (Memᴰ.tail m) = All-Memᴰ P ys x h.1 m

  pub Memᴰ-filter :
      (p : A → Bool) (xs : List A) (x : A) → Memᴰ x xs → p x ≡ true → Memᴰ x (filter p xs)
  Memᴰ-filter p [] x m h = elim m [ ]
  Memᴰ-filter p (y ∷ ys) x (Memᴰ.head e) h = let py : p y ≡ true = cc in rw py (Memᴰ.head e)
  Memᴰ-filter p (y ∷ ys) x (Memᴰ.tail m) h = elim (Bool-cases (p y)) [
    | inl e ↦ rw e (Memᴰ.tail (Memᴰ-filter p ys x m h))
    | inr e ↦ rw e (Memᴰ-filter p ys x m h)
  ]

  module _ (before : A → A → Bool) where
    Memᴰ-insert_by_new : (x : A) (xs : List A) → Memᴰ x (insert_by before x xs)
    unfolding insert_by
    Memᴰ-insert_by_new x [] = Memᴰ.head refl
    Memᴰ-insert_by_new x (y ∷ ys) = elim (Bool-cases (before y x)) [
      | inl e ↦ rw e (Memᴰ.tail (Memᴰ-insert_by_new x ys))
      | inr e ↦ rw e (Memᴰ.head refl)
    ]

    Memᴰ-insert_by_old : (z x : A) (xs : List A) → Memᴰ z xs → Memᴰ z (insert_by before x xs)
    unfolding insert_by
    Memᴰ-insert_by_old z x [] m = elim m [ ]
    Memᴰ-insert_by_old z x (y ∷ ys) m = elim (Bool-cases (before y x)) [
      | inr e ↦ rw e (Memᴰ.tail m)
      | inl e ↦ rw e (elim m [
        | Memᴰ.head h ↦ Memᴰ.head h
        | Memᴰ.tail n ↦ Memᴰ.tail (Memᴰ-insert_by_old z x ys n)
      ])
    ]

    pub Memᴰ-sort_by : (z : A) (xs : List A) → Memᴰ z xs → Memᴰ z (sort_by before xs)
    unfolding sort_by
    Memᴰ-sort_by z [] m = elim m [ ]
    Memᴰ-sort_by z (x ∷ xs) (Memᴰ.head e) =
        subst (λ w. Memᴰ w (sort_by before (x ∷ xs))) (sym e)
          (Memᴰ-insert_by_new x (sort_by before xs))
    Memᴰ-sort_by z (x ∷ xs) (Memᴰ.tail m) =
        Memᴰ-insert_by_old z x (sort_by before xs) (Memᴰ-sort_by z xs m)

  module _ (key : A → ℕ) where
    -- No key is below a later one.
    abbrev pub Falling : List A → Type 0
    Falling [] = Unit
    Falling (x ∷ xs) = All (λ y. key y ≤ key x) xs × Falling xs

    All-insert_by_key :
        (n : ℕ) (x : A) (xs : List A)
        → key x ≤ n
        → All (λ y. key y ≤ n) xs
        → All (λ y. key y ≤ n) (insert_by (λ a b. ltb (key b) (key a)) x xs)
    unfolding insert_by
    All-insert_by_key n x [] h k = (h, tt)
    All-insert_by_key n x (y ∷ ys) h k = ground (arith, All-insert_by_key n x ys h k.1)

    insert_by-Falling :
        (x : A) (xs : List A) → Falling xs → Falling (insert_by (λ a b. ltb (key b) (key a)) x xs)
    unfolding insert_by
    insert_by-Falling x [] h = (tt, tt)
    insert_by-Falling x (y ∷ ys) h = elim (Bool-cases (ltb (key x) (key y))) [
      | inl e ↦ rw e (All-insert_by_key (key y) x ys (ground arith) h.0, insert_by-Falling x ys h.1)
      | inr e ↦
          let le : key y ≤ key x = ground arith in
          rw e
            ((le, All-map (λ z. key z ≤ key y) (λ z. key z ≤ key x) ys (λ z l. omega arith) h.0), h)
    ]

    pub sort_by-Falling : (xs : List A) → Falling (sort_by (λ a b. ltb (key b) (key a)) xs)
    unfolding sort_by
    sort_by-Falling [] = tt
    sort_by-Falling (x ∷ xs) =
        insert_by-Falling x (sort_by (λ a b. ltb (key b) (key a)) xs) (sort_by-Falling xs)
