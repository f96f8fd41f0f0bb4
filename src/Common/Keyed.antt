-- ===== src/Common/Keyed.antt =====
-- `HashMap<String, V>` and `DashMap<String, V>` as association lists. Iteration order, which Rust
-- leaves open, is the order of the list.
use Prim.Native.Nat.{◌+◌, ◌≤◌, ◌<◌}
use Prim.Native.String.{String}
use mathlib.Core.Path.{◌≡◌, refl, subst}
use mathlib.Core.Logic.{◌≢◌, ite, inl, inr}
use mathlib.Core.Bool.{Bool, true, false}
use mathlib.Core.List.{List, [], ◌∷◌}
use mathlib.Core.Option.{Option, none, some}
use native.Mathlib.Omega.{arith}
use aqua_rust.Common.Tests.{if◌then◌else◌, string_discrete, Option-cases, Bool-cases}
use aqua_rust.Common.Lists.{length}

abbrev pub Map {ℓ} : Type ℓ → Type ℓ
Map V = List (String × V)

module _ {ℓ} {V : Type ℓ} where
  unfoldable pub lookup : String → Map V → Option V
  lookup k [] = none
  lookup k ((j, v) ∷ m) = ite (string_discrete j k) (some v) (lookup k m)

  unfoldable pub insert : String → V → Map V → Map V
  insert k v [] = (k, v) ∷ []
  insert k v ((j, w) ∷ m) = ite (string_discrete j k) ((j, v) ∷ m) ((j, w) ∷ insert k v m)

  unfoldable pub remove : String → Map V → Map V
  remove k [] = []
  remove k ((j, w) ∷ m) = ite (string_discrete j k) (remove k m) ((j, w) ∷ remove k m)

  unfoldable pub retain : (String → V → Bool) → Map V → Map V
  retain p [] = []
  retain p ((j, w) ∷ m) = if p j w then (j, w) ∷ retain p m else retain p m

  abbrev pub is_some : Option V → Bool
  is_some none = false
  is_some (some v) = true

  abbrev pub contains_key : String → Map V → Bool
  contains_key k m = is_some (lookup k m)

  -- `unwrap_or`.
  abbrev pub unwrap_or : Option V → V → V
  unwrap_or none d = d
  unwrap_or (some v) d = v

  pub lookup-insert :
      (k j : String) (v : V) (m : Map V)
      → lookup j (insert k v m) ≡ ite (string_discrete k j) (some v) (lookup j m)
  unfolding lookup insert
  lookup-insert k j v [] = refl
  lookup-insert k j v ((i, w) ∷ m) = ground (arith, lookup-insert k j v m)

  pub lookup-insert_self : (k : String) (v : V) (m : Map V) → lookup k (insert k v m) ≡ some v
  lookup-insert_self k v m = ground (arith, lookup-insert k k v m)

  pub lookup-insert_ne :
      (k j : String) (v : V) (m : Map V) → k ≢ j → lookup j (insert k v m) ≡ lookup j m
  lookup-insert_ne k j v m h = ground (arith, lookup-insert k j v m)

  pub lookup-remove :
      (k j : String) (m : Map V)
      → lookup j (remove k m) ≡ ite (string_discrete k j) none (lookup j m)
  unfolding lookup remove
  lookup-remove k j [] = ground arith
  lookup-remove k j ((i, w) ∷ m) = ground (arith, lookup-remove k j m)

  -- An entry that passes the test stays, and a key that is absent stays absent.
  pub lookup-retain-some :
      (p : String → V → Bool) (j : String) (v : V) (m : Map V)
      → lookup j m ≡ some v
      → p j v ≡ true
      → lookup j (retain p m) ≡ some v
  unfolding lookup retain
  lookup-retain-some p j v [] h k = cc
  lookup-retain-some p j v ((i, w) ∷ m) h k = ground (arith, lookup-retain-some p j v m)

  pub lookup-retain-none :
      (p : String → V → Bool) (j : String) (m : Map V)
      → lookup j m ≡ none
      → lookup j (retain p m) ≡ none
  unfolding lookup retain
  lookup-retain-none p j [] h = refl
  lookup-retain-none p j ((i, w) ∷ m) h = ground (arith, lookup-retain-none p j m)

  -- No key is bound twice.
  abbrev pub Distinct : Map V → Type ℓ
  Distinct [] = Unit
  Distinct ((k, v) ∷ m) = (lookup k m ≡ none) × Distinct m

  pub insert-Distinct : (k : String) (v : V) (m : Map V) → Distinct m → Distinct (insert k v m)
  unfolding insert
  insert-Distinct k v [] h = (unfold lookup in refl, tt)
  insert-Distinct k v ((j, w) ∷ m) h =
      ground (arith, lookup-insert k j v m, insert-Distinct k v m h.1)

  pub remove-Distinct : (k : String) (m : Map V) → Distinct m → Distinct (remove k m)
  unfolding remove
  remove-Distinct k [] h = tt
  remove-Distinct k ((j, w) ∷ m) h = ground (arith, lookup-remove k j m, remove-Distinct k m h.1)

  pub retain-Distinct : (p : String → V → Bool) (m : Map V) → Distinct m → Distinct (retain p m)
  unfolding retain
  retain-Distinct p [] h = tt
  retain-Distinct p ((j, w) ∷ m) h =
      ground (arith, lookup-retain-none p j m h.0, retain-Distinct p m h.1)

  -- What fails the test is gone.
  pub lookup-retain_dropped :
      (p : String → V → Bool) (j : String) (v : V) (m : Map V)
      → Distinct m
      → lookup j m ≡ some v
      → p j v ≡ false
      → lookup j (retain p m) ≡ none
  unfolding lookup retain
  lookup-retain_dropped p j v [] d h k = refl
  lookup-retain_dropped p j v ((i, w) ∷ m) d h k = ground (
    arith,
    lookup-retain_dropped p j v m d.1,
    λ (e : lookup j m ≡ none). lookup-retain-none p j m e,
  )

  pub length-insert-le : (k : String) (v : V) (m : Map V) → length (insert k v m) ≤ length m + 1
  unfolding insert
  length-insert-le k v [] = omega arith
  length-insert-le k v ((j, w) ∷ m) = ground (arith, length-insert-le k v m)

  pub length-remove-le : (k : String) (m : Map V) → length (remove k m) ≤ length m
  unfolding remove
  length-remove-le k [] = omega arith
  length-remove-le k ((j, w) ∷ m) = ground (arith, length-remove-le k m)

  pub length-remove_lt :
      (k : String) (v : V) (m : Map V) → lookup k m ≡ some v → length (remove k m) < length m
  unfolding lookup remove
  length-remove_lt k v [] h = absurd (cc)
  length-remove_lt k v ((j, w) ∷ m) h = ground (arith, length-remove_lt k v m, length-remove-le k m)

  pub length-retain-le : (p : String → V → Bool) (m : Map V) → length (retain p m) ≤ length m
  unfolding retain
  length-retain-le p [] = omega arith
  length-retain-le p ((j, w) ∷ m) = ground (arith, length-retain-le p m)

module _ {ℓ κ} {V : Type ℓ} where
  -- Every entry of a map meets a predicate.
  abbrev pub Stored : (String → V → Type κ) → Map V → Type (ℓ ⊔ κ)
  Stored Q m = (k : String) (e : V) → lookup k m ≡ some e → Q k e

  pub remove-Stored :
      (Q : String → V → Type κ) (j : String) (m : Map V) → Stored Q m → Stored Q (remove j m)
  remove-Stored Q j m s k e h = s k e (ground (arith, lookup-remove j k m))

  -- A new binding, after which the other keys meet `R`.
  pub insert-Stored :
      (Q R : String → V → Type κ) (k : String) (e : V) (m : Map V)
      → ((j : String) (f : V) → k ≢ j → Q j f → R j f)
      → R k e
      → Stored Q m
      → Stored R (insert k e m)
  insert-Stored Q R k e m keep new_one s j f h = elim (string_discrete k j) [
    | yes p ↦
        let same : e ≡ f = ground (arith, lookup-insert k j e m) in
        subst (R j) same (subst (λ x. R x e) p new_one)
    | no p ↦ keep j f p (s j f (ground (arith, lookup-insert k j e m)))
  ]

module _ {ℓ} {V : Type ℓ} where
  -- What is left by `retain` was there, and passes the test.
  pub lookup-retain :
      (p : String → V → Bool) (j : String) (v : V) (m : Map V)
      → Distinct m
      → lookup j (retain p m) ≡ some v
      → (lookup j m ≡ some v) × (p j v ≡ true)
  lookup-retain p j v m d h = elim (Option-cases (lookup j m)) [
    | inl e ↦ absurd (ground (arith, lookup-retain-none p j m e))
    | inr (w, e) ↦
        ground (
          arith,
          lookup-retain-some p j w m e,
          lookup-retain_dropped p j w m d e,
          Bool-cases (p j w),
        )
  ]
