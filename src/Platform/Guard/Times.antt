-- ===== src/Platform/Guard/Times.antt =====
-- src/platform/guard.rs: the times that the guard keeps for a key.
use aqua_rust.Common.{
  ℕ, ◌+◌, ◌≤◌, ◌≡◌, refl, String, true, none, List, [], ◌∷◌, ◌++◌, Map, lookup, lookup-insert,
  string_discrete, Distinct, filter, length, is_empty, leb, if◌then◌else◌, arith, Bool-cases, inl,
  inr, is_same,
}
use aqua_rust.Platform.Guard.{prune, times_of, push}

-- The times from a cutoff on.
abbrev pub count_from : ℕ → List ℕ → ℕ
count_from c ts = length (filter (λ t. leb c t) ts)

pub count_from-append :
    (c : ℕ) (xs ys : List ℕ) → count_from c (xs ++ ys) ≡ count_from c xs + count_from c ys
count_from-append c [] ys = omega arith
count_from-append c (x ∷ xs) ys = ground (arith, count_from-append c xs ys)

pub count_from-le : (c : ℕ) (xs : List ℕ) → count_from c xs ≤ length xs
count_from-le c [] = omega arith
count_from-le c (x ∷ xs) = ground (arith, count_from-le c xs)

-- Later cutoffs count the same after a filter by an earlier one.
pub count_from-filter :
    (c d : ℕ) (xs : List ℕ) → c ≤ d → count_from d (filter (λ t. leb c t) xs) ≡ count_from d xs
count_from-filter c d [] l = refl
count_from-filter c d (x ∷ xs) l = ground (arith, count_from-filter c d xs l)

lookup-prune-none :
    (c : ℕ) (k : String) (m : Map (List ℕ)) → lookup k m ≡ none → lookup k (prune c m) ≡ none
unfolding lookup prune
lookup-prune-none c k [] h = refl
lookup-prune-none c k ((j, v) ∷ m) h = ground (arith, lookup-prune-none c k m)

pub prune-Distinct : (c : ℕ) (m : Map (List ℕ)) → Distinct m → Distinct (prune c m)
unfolding prune
prune-Distinct c [] h = tt
prune-Distinct c ((j, v) ∷ m) h =
    ground (arith, lookup-prune-none c j m h.0, prune-Distinct c m h.1)

nil_of_empty : (xs : List ℕ) → is_empty xs ≡ true → xs ≡ []
nil_of_empty [] e = refl
nil_of_empty (x ∷ xs) e = absurd (cc)

pub times_of-prune :
    (c : ℕ) (k : String) (m : Map (List ℕ))
    → Distinct m
    → times_of k (prune c m) ≡ filter (λ t. leb c t) (times_of k m)
unfolding lookup prune
times_of-prune c k [] d = refl
times_of-prune c k ((j, v) ∷ m) d = elim (Bool-cases (is_empty (filter (λ t. leb c t) v))) [
  | inl e ↦
      let nothing = nil_of_empty (filter (λ t. leb c t) v) e in
      rw e (ground (arith, times_of-prune c k m d.1, lookup-prune-none c j m d.0))
  | inr e ↦ rw e (ground (arith, times_of-prune c k m d.1))
]

pub times_of-push :
    (at : ℕ) (k ip : String) (m : Map (List ℕ))
    → times_of ip (push at k m) ≡ (if is_same k ip then times_of ip m ++ at ∷ [] else times_of ip m)
times_of-push at k ip m = elim (string_discrete k ip) [
  | yes p ↦ ground (arith, lookup-insert k ip (times_of k m ++ at ∷ []) m)
  | no p ↦ ground (arith, lookup-insert k ip (times_of k m ++ at ∷ []) m)
]
