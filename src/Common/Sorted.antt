-- ===== src/Common/Sorted.antt =====
-- Lists: membership, the stable sort and predicates that hold of all elements.
use Prim.Native.Nat.{ℕ, zero, suc, ◌<◌}
use mathlib.Core.Path.{◌≡◌, refl}
use mathlib.Core.Logic.{inl, inr}
use mathlib.Core.Bool.{Bool, true}
use mathlib.Core.List.{List, [], ◌∷◌, Memᴰ}
use mathlib.Core.Option.{some}
use native.Mathlib.Omega.{arith}
use aqua_rust.Common.Tests.{Bool-cases}
use aqua_rust.Common.Lists.{All, All-map, length, filter, get_elem?}
use aqua_rust.Common.Values.{insert_by, sort_by}

module _ {ℓ κ} {A : Type ℓ} (P : A → Type κ) where
  All-insert_by :
      (b : A → A → Bool) (x : A) (xs : List A) → P x → All P xs → All P (insert_by b x xs)
  unfolding insert_by
  All-insert_by b x [] p h = (p, tt)
  All-insert_by b x (y ∷ ys) p h = ground (arith, All-insert_by b x ys p h.1)

  pub All-sort_by : (b : A → A → Bool) (xs : List A) → All P xs → All P (sort_by b xs)
  unfolding sort_by
  All-sort_by b [] h = tt
  All-sort_by b (x ∷ xs) h = All-insert_by b x (sort_by b xs) h.0 (All-sort_by b xs h.1)

  pub All-get_elem? : (xs : List A) (i : ℕ) {x : A} → All P xs → get_elem? xs i ≡ some x → P x
  All-get_elem? [] i h e = absurd (cc)
  All-get_elem? (y ∷ ys) zero h e = ground (arith, h.0)
  All-get_elem? (y ∷ ys) (suc i) h e = All-get_elem? ys i h.1 e

  pub All-of-Memᴰ : (xs : List A) → ((x : A) → Memᴰ x xs → P x) → All P xs
  All-of-Memᴰ [] f = tt
  All-of-Memᴰ (x ∷ xs) f = (f x (Memᴰ.head refl), All-of-Memᴰ xs (λ y m. f y (Memᴰ.tail m)))

module _ {ℓ} {A : Type ℓ} where
  length-insert_by :
      (b : A → A → Bool) (x : A) (xs : List A) → length (insert_by b x xs) ≡ suc (length xs)
  unfolding insert_by
  length-insert_by b x [] = refl
  length-insert_by b x (y ∷ ys) = ground (arith, length-insert_by b x ys)

  pub length-sort_by : (b : A → A → Bool) (xs : List A) → length (sort_by b xs) ≡ length xs
  unfolding sort_by
  length-sort_by b [] = refl
  length-sort_by b (x ∷ xs) =
      omega (arith, length-insert_by b x (sort_by b xs), length-sort_by b xs)

  pub get_elem?-some : (xs : List A) (i : ℕ) → i < length xs → (x : A) × (get_elem? xs i ≡ some x)
  get_elem?-some [] i h = elim h [ ]
  get_elem?-some (x ∷ xs) zero h = (x, refl)
  get_elem?-some (x ∷ xs) (suc i) h = get_elem?-some xs i (omega arith)

  -- What a filter keeps is in the list and passes the test.
  pub All-filter_mem :
      (p : A → Bool) (xs : List A) → All (λ x. Memᴰ x xs × (p x ≡ true)) (filter p xs)
  All-filter_mem p [] = tt
  All-filter_mem p (x ∷ xs) =
      let rest : All (λ y. Memᴰ y (x ∷ xs) × (p y ≡ true)) (filter p xs) =
        All-map (λ y. Memᴰ y xs × (p y ≡ true)) (λ y. Memᴰ y (x ∷ xs) × (p y ≡ true)) (filter p xs)
          (λ y q. (Memᴰ.tail q.0, q.1)) (All-filter_mem p xs) in
      elim (Bool-cases (p x)) [ inl e ↦ rw e ((Memᴰ.head refl, e), rest) | inr e ↦ rw e rest ]

  -- A list with a member that passes the test leaves something.
  pub length-filter_pos :
      (p : A → Bool) (xs : List A) (x : A) → Memᴰ x xs → p x ≡ true → 0 < length (filter p xs)
  length-filter_pos p [] x m h = elim m [ ]
  length-filter_pos p (y ∷ ys) x (Memᴰ.head e) h = ground arith
  length-filter_pos p (y ∷ ys) x (Memᴰ.tail m) h = ground (arith, length-filter_pos p ys x m h)
