-- ===== src/Gateway/Validator/Correct/Known.antt =====
-- src/gateway/validator.rs: what the correction of a model's name can give.
use aqua_rust.Common.{
  ℕ, ◌≡◌, refl, sym, ap, subst, Bool, true, false, ◌&&◌, Option, none, some, List, [], ◌∷◌, ◌++◌,
  Memᴰ, All, is_empty, leb, if◌then◌else◌, arith, Bool-cases, ◌⊎◌, inl, inr,
}
use aqua_rust.Gateway.Floats.{Floats}
use aqua_rust.Gateway.Validator.{normalize_model_id, is_ascii_alphanumeric}
use aqua_rust.Gateway.Validator.Correct.{
  ModelInfo, find_id, is_eq, or_else, most_similar, better, correct, byte_len, trim,
  validate_and_correct_model, similarity_ratio,
}

-- The name of an entry of the catalogue.
abbrev pub IsKnown : List ModelInfo → List ℕ → Type 0
IsKnown catalog id = (x : ModelInfo) × Memᴰ x catalog × (x.id ≡ id)

-- What is found, if anything, is known.
FindsKnown : List ModelInfo → Option (List ℕ) → Type 0
FindsKnown catalog none = Unit
FindsKnown catalog (some id) = IsKnown catalog id

later-FindsKnown :
    (x : ModelInfo) (catalog : List ModelInfo) (o : Option (List ℕ))
    → FindsKnown catalog o
    → FindsKnown (x ∷ catalog) o
unfolding FindsKnown
later-FindsKnown x catalog none h = h
later-FindsKnown x catalog (some id) (y, m, e) = (y, Memᴰ.tail m, e)

find_id-FindsKnown :
    (p : ModelInfo → Bool) (catalog : List ModelInfo) → FindsKnown catalog (find_id p catalog)
unfolding find_id FindsKnown
find_id-FindsKnown p [] = tt
find_id-FindsKnown p (x ∷ xs) = elim (Bool-cases (p x)) [
  | inl e ↦ rw e (x, Memᴰ.head refl, refl)
  | inr e ↦ rw e (later-FindsKnown x xs (find_id p xs) (find_id-FindsKnown p xs))
]

is_eq-eq : (s t : List ℕ) → is_eq s t ≡ true → s ≡ t
unfolding is_eq
is_eq-eq [] [] e = refl
is_eq-eq [] (d ∷ t) e = absurd (cc)
is_eq-eq (c ∷ s) [] e = absurd (cc)
is_eq-eq (c ∷ s) (d ∷ t) e = ground (arith, is_eq-eq s t)

is_eq_refl : (s : List ℕ) → is_eq s s ≡ true
unfolding is_eq
is_eq_refl [] = refl
is_eq_refl (c ∷ s) = ground (arith, is_eq_refl s)

find_own :
    (catalog : List ModelInfo) (m : List ℕ)
    → IsKnown catalog m
    → find_id (λ x. is_eq x.id m) catalog ≡ some m
unfolding find_id
find_own [] m (x, mem, e) = elim mem [ ]
find_own (y ∷ ys) m (x, mem, e) = elim (Bool-cases (is_eq y.id m)) [
  | inl h ↦ rw h (ap some (is_eq-eq y.id m h))
  | inr h ↦ rw h (elim mem [
    | Memᴰ.head q ↦
        let same : y.id ≡ m = cc in
        absurd (cc (subst (λ s. is_eq s m ≡ true) (sym same) (is_eq_refl m)))
    | Memᴰ.tail n ↦ find_own ys m (x, n, e)
  ])
]

-- An answer that is known, or the name itself.
abbrev pub IsKnownOr : List ModelInfo → List ℕ → List ℕ → Type 0
IsKnownOr catalog m r = (r ≡ m) ⊎ IsKnown catalog r

or_else-IsKnownOr :
    (catalog : List ModelInfo) (m : List ℕ) (o : Option (List ℕ)) (rest : List ℕ)
    → FindsKnown catalog o
    → IsKnownOr catalog m rest
    → IsKnownOr catalog m (or_else o rest)
unfolding FindsKnown
or_else-IsKnownOr catalog m none rest h k = k
or_else-IsKnownOr catalog m (some id) rest h k = inr h

empty_nil : (xs : List ℕ) → is_empty xs ≡ true → xs ≡ []
empty_nil [] e = refl
empty_nil (x ∷ xs) e = absurd (cc)

module _ ⦃f : Floats⦄ where
  open f use {F, lt, ratio}

  -- The best so far is known.
  BestKnown : List ModelInfo → Option (List ℕ × F) → Type 0
  BestKnown catalog none = Unit
  BestKnown catalog (some (id, s)) = IsKnown catalog id

  better-BestKnown :
      (catalog : List ModelInfo) (m : List ℕ) (x : ModelInfo) (best : Option (List ℕ × F))
      → Memᴰ x catalog
      → BestKnown catalog best
      → BestKnown catalog (better m x best)
  unfolding better BestKnown
  better-BestKnown catalog m x none mem h =
      elim (Bool-cases (lt (ratio 85 100) (similarity_ratio m x.id))) [
        | inl e ↦ rw e (x, mem, refl)
        | inr e ↦ rw e tt
      ]
  better-BestKnown catalog m x (some (id, s)) mem h =
      elim (Bool-cases
        (lt (ratio 85 100) (similarity_ratio m x.id) && lt s (similarity_ratio m x.id))) [
          | inl e ↦ rw e (x, mem, refl)
          | inr e ↦ rw e h
        ]

  most_similar-FindsKnown :
      (catalog : List ModelInfo) (m : List ℕ) (best : Option (List ℕ × F)) (xs : List ModelInfo)
      → BestKnown catalog best
      → ((x : ModelInfo) → Memᴰ x xs → Memᴰ x catalog)
      → FindsKnown catalog (most_similar m best xs)
  unfolding most_similar FindsKnown BestKnown
  most_similar-FindsKnown catalog m none [] h sub = tt
  most_similar-FindsKnown catalog m (some (id, s)) [] h sub = h
  most_similar-FindsKnown catalog m none (x ∷ xs) h sub =
      most_similar-FindsKnown catalog m (better m x none) xs
        (better-BestKnown catalog m x none (sub x (Memᴰ.head refl)) h) (λ y n. sub y (Memᴰ.tail n))
  most_similar-FindsKnown catalog m (some b) (x ∷ xs) h sub =
      most_similar-FindsKnown catalog m (better m x (some b)) xs
        (better-BestKnown catalog m x (some b) (sub x (Memᴰ.head refl)) h)
        (λ y n. sub y (Memᴰ.tail n))

  guarded-FindsKnown :
      (catalog : List ModelInfo) (b : Bool) (o : Option (List ℕ))
      → FindsKnown catalog o
      → FindsKnown catalog (if b then o else none)
  unfolding FindsKnown
  guarded-FindsKnown catalog true o h = h
  guarded-FindsKnown catalog false o h = tt

  correct-IsKnownOr :
      (catalog : List ModelInfo) (m : List ℕ) → IsKnownOr catalog m (correct catalog m)
  unfolding correct BestKnown
  correct-IsKnownOr catalog m =
      let norm = normalize_model_id m in
      or_else-IsKnownOr catalog m _ _ (find_id-FindsKnown _ catalog) (
        or_else-IsKnownOr catalog m _ _ (find_id-FindsKnown _ catalog) (
          or_else-IsKnownOr catalog m _ _ (find_id-FindsKnown _ catalog) (
            or_else-IsKnownOr catalog m _ _ (find_id-FindsKnown _ catalog) (
              or_else-IsKnownOr catalog m _ _
                (guarded-FindsKnown catalog (leb 4 (byte_len norm)) _
                  (find_id-FindsKnown _ catalog))
                (or_else-IsKnownOr catalog m (most_similar m none catalog) m
                  (most_similar-FindsKnown catalog m none catalog tt (λ x n. n)) (inl refl))))))

  -- The correction gives a name of the catalogue, or the trimmed name that it was given.
  pub corrected-IsKnown :
      (catalog : List ModelInfo) (name : List ℕ)
      → (validate_and_correct_model catalog name ≡ trim name)
        ⊎ IsKnown catalog (validate_and_correct_model catalog name)
  unfolding validate_and_correct_model
  corrected-IsKnown catalog name = elim (Bool-cases (is_empty (trim name))) [
    | inl e ↦ rw e (inl (sym (empty_nil (trim name) e)))
    | inr e ↦ rw e (correct-IsKnownOr catalog (trim name))
  ]

  -- A name that is in the catalogue but for spaces around it is kept, whatever else resembles it.
  pub known_is_kept :
      (catalog : List ModelInfo) (name : List ℕ)
      → IsKnown catalog (trim name)
      → validate_and_correct_model catalog name ≡ trim name
  unfolding validate_and_correct_model correct
  known_is_kept catalog name known = elim (Bool-cases (is_empty (trim name))) [
    | inl e ↦ rw e (sym (empty_nil (trim name) e))
    | inr e ↦ rw (e, find_own catalog (trim name) known) refl
  ]

-- Words of letters and digits do not count for the normal form of a name: only what stands between
-- them does, so that names of the same separators are the same name to the fourth level.
pub normalize_ignores_words :
    (p q s t : List ℕ)
    → All (λ c. is_ascii_alphanumeric c ≡ true) p
    → All (λ c. is_ascii_alphanumeric c ≡ true) q
    → normalize_model_id s ≡ normalize_model_id t
    → normalize_model_id (p ++ s) ≡ normalize_model_id (q ++ t)
unfolding normalize_model_id
normalize_ignores_words [] [] s t h k e = e
normalize_ignores_words [] (d ∷ q) s t h k e = rw k.0 (normalize_ignores_words [] q s t tt k.1 e)
normalize_ignores_words (c ∷ p) q s t h k e = rw h.0 (normalize_ignores_words p q s t h.1 k e)
