-- ===== src/Gateway/Cache/Bounded.antt =====
-- The size of the LRU cache, and what it holds.
use aqua_rust.Common.{
  u64, ℕ, ◌+◌, ◌-◌, ◌≤◌, ◌<◌, ◌≡◌, refl, String, Bool, true, false, not, Option, none, some, List,
  [], ◌∷◌, Map, lookup, insert, remove, filter, length, length-append, is_same, ltb, Distinct,
  lookup-insert, lookup-remove, insert-Distinct, remove-Distinct, if◌then◌else◌, arith, Bool-cases,
  inl, inr, ◌∙◌, length-filter-le, tests, Option-cases,
}
use aqua_rust.Gateway.Cache.{Bytes, LruCache, new, get, set, touch, evict}

-- A use stands in the recency list.
abbrev pub occurs : String → List String → Bool
occurs k [] = false
occurs k (j ∷ l) = if is_same j k then true else occurs k l

-- The keys of a map stand in a list.
abbrev pub Tracked : Map (Bytes × ℕ) → List String → Type 0
Tracked m l = (k : String) (e : Bytes × ℕ) → lookup k m ≡ some e → occurs k l ≡ true

occurs-touch_self : (k : String) (l : List String) → occurs k (touch k l) ≡ true
occurs-touch_self k [] = ground arith
occurs-touch_self k (j ∷ l) = ground (arith, occurs-touch_self k l)

occurs-touch : (k j : String) (l : List String) → occurs j l ≡ true → occurs j (touch k l) ≡ true
occurs-touch k j [] h = cc
occurs-touch k j (i ∷ l) h = ground (arith, occurs-touch k j l, occurs-touch_self k l)

-- After the head is removed, the others are tracked by the tail.
remove-Tracked :
    (j : String) (l : List String) (m : Map (Bytes × ℕ))
    → Tracked m (j ∷ l)
    → Tracked (remove j m) l
remove-Tracked j l m t k e h = ground (arith, lookup-remove j k m, t k e)

evict-Tracked :
    (cap : ℕ) (l : List String) (m : Map (Bytes × ℕ))
    → Tracked m l
    → Tracked (evict cap l m).1 (evict cap l m).0
unfolding evict
evict-Tracked cap [] m t = t
evict-Tracked cap (j ∷ l) m t = elim (Bool-cases (ltb cap (length (j ∷ l)))) [
  | inl e ↦ rw e (evict-Tracked cap l (remove j m) (remove-Tracked j l m t))
  | inr e ↦ rw e t
]

evict-Distinct :
    (cap : ℕ) (l : List String) (m : Map (Bytes × ℕ)) → Distinct m → Distinct (evict cap l m).1
unfolding evict
evict-Distinct cap [] m d = d
evict-Distinct cap (j ∷ l) m d =
    ground (arith, evict-Distinct cap l (remove j m) (remove-Distinct j m d))

evict-bounded : (cap : ℕ) (l : List String) (m : Map (Bytes × ℕ)) → length (evict cap l m).0 ≤ cap
unfolding evict
evict-bounded cap [] m = omega arith
evict-bounded cap (j ∷ l) m = ground (arith, evict-bounded cap l (remove j m))

length-touch-le : (k : String) (l : List String) → length (touch k l) ≤ length l + 1
length-touch-le k l = omega (
  arith,
  length-append (filter (λ j. not (is_same j k)) l) (k ∷ []),
  length-filter-le (λ j. not (is_same j k)) l,
)

-- A touch of a key that occurs makes the list no longer.
length-filter-occurs :
    (k : String) (l : List String)
    → occurs k l ≡ true
    → length (filter (λ j. not (is_same j k)) l) < length l
length-filter-occurs k [] h = absurd (cc)
length-filter-occurs k (j ∷ l) h =
    ground (arith, length-filter-occurs k l, length-filter-le (λ j. not (is_same j k)) l)

length-touch-occurs :
    (k : String) (l : List String) → occurs k l ≡ true → length (touch k l) ≤ length l
length-touch-occurs k l h =
    omega (
      arith,
      length-append (filter (λ j. not (is_same j k)) l) (k ∷ []),
      length-filter-occurs k l h,
    )

length-remove_absent :
    (k : String) (m : Map (Bytes × ℕ)) → lookup k m ≡ none → length (remove k m) ≡ length m
unfolding lookup remove
length-remove_absent k [] h = refl
length-remove_absent k ((j, e) ∷ m) h = ground (arith, length-remove_absent k m)

length-le-remove :
    (k : String) (m : Map (Bytes × ℕ)) → Distinct m → length m ≤ length (remove k m) + 1
unfolding remove
length-le-remove k [] d = omega arith
length-le-remove k ((j, e) ∷ m) d =
    ground (arith, length-le-remove k m d.1, length-remove_absent j m d.0)

first-Tracked : (k : String) (e : Bytes × ℕ) (m : Map (Bytes × ℕ)) → Tracked ((k, e) ∷ m) [] → ⊥
unfolding lookup
first-Tracked k e m t = cc (t k e (ground arith))

length-Tracked :
    (l : List String) (m : Map (Bytes × ℕ)) → Distinct m → Tracked m l → length m ≤ length l
length-Tracked [] [] d t = omega arith
length-Tracked [] ((k, e) ∷ m) d t = absurd (first-Tracked k e m t)
length-Tracked (j ∷ l) m d t = omega (
  arith,
  length-le-remove j m d,
  length-Tracked l (remove j m) (remove-Distinct j m d) (remove-Tracked j l m t),
)

-- The recency list covers the entries and keeps within the capacity.
pub record Inv (c : LruCache) : Type 0 where
  pub distinct : Distinct c.entries
  pub tracked : Tracked c.entries c.lru
  pub bounded : length c.lru ≤ c.capacity

pub new-Inv : (capacity ttl : ℕ) → Inv (new capacity ttl)
unfolding new
new-Inv capacity ttl = record {
  distinct = tt;
  tracked = λ k e h. unfold lookup in cc h;
  bounded = omega arith;
}

Tracked-after :
    (k : String) (v : Bytes) (now : ℕ) (c : LruCache)
    → Inv c
    → Tracked (insert k (v, now) c.entries) (touch k c.lru)
Tracked-after k v now c i j e h = ground (
  arith,
  lookup-insert k j (v, now) c.entries,
  i.tracked j e,
  occurs-touch_self k c.lru,
  occurs-touch k j c.lru,
)

pub set-Inv : (k : String) (v : Bytes) (now : ℕ) (c : LruCache) → Inv c → Inv (set k v now c)
unfolding set
set-Inv k v now c i = record {
  distinct = evict-Distinct _ _ _ (insert-Distinct k (v, now) c.entries i.distinct);
  tracked = evict-Tracked c.capacity (touch k c.lru) _ (Tracked-after k v now c i);
  bounded = evict-bounded c.capacity _ _;
}

expired-Inv :
    (k : String) (n : ℕ) (c : LruCache)
    → Inv c
    → Inv (record c { entries = remove k c.entries; misses = n })
expired-Inv k n c i = record {
  distinct = remove-Distinct k c.entries i.distinct;
  tracked = λ j e h. i.tracked j e (ground (arith, lookup-remove k j c.entries));
  bounded = i.bounded;
}

hit-Inv :
    (k : String) (e : Bytes × ℕ) (n : ℕ) (c : LruCache)
    → lookup k c.entries ≡ some e
    → Inv c
    → Inv (record c { lru = touch k c.lru; hits = n })
hit-Inv k e n c h i = record {
  distinct = i.distinct;
  tracked = λ j f g. occurs-touch k j c.lru (i.tracked j f g);
  bounded = omega (arith, length-touch-occurs k c.lru (i.tracked k e h), i.bounded);
}

-- The three outcomes of `get`, for any predicate on the cache after it and the value found.
pub get_cases {ℓ} :
    (P : LruCache × Option Bytes → Type ℓ) (k : String) (now : ℕ) (c : LruCache)
    → (lookup k c.entries ≡ none → P (c, none))
    → ((v : Bytes) (t : ℕ)
        → lookup k c.entries ≡ some (v, t)
        → c.default_ttl < now - t
        → P (record c { entries = remove k c.entries; misses = u64 (c.misses + 1) }, none))
    → ((v : Bytes) (t : ℕ)
        → lookup k c.entries ≡ some (v, t)
        → now - t ≤ c.default_ttl
        → P (record c { lru = touch k c.lru; hits = u64 (c.hits + 1) }, some v))
    → P (get k now c)
unfolding get
get_cases P k now c absent stale fresh = elim (Option-cases (lookup k c.entries)) [
  | inl e ↦ rw (e, get) (absent e)
  | inr ((v, t), e) ↦ elim (Bool-cases (ltb c.default_ttl (now - t))) [
    | inl old ↦ rw (e, get, old) (stale v t e (omega tests))
    | inr new ↦ rw (e, get, new) (fresh v t e (ground arith))
  ]
]

pub get-Inv : (k : String) (now : ℕ) (c : LruCache) → Inv c → Inv (get k now c).0
unfolding get
get-Inv k now c i =
    get_cases (λ r. Inv r.0) k now c (λ _. i) (λ v t _ _. expired-Inv k _ c i)
      (λ v t e _. hit-Inv k (v, t) _ c e i)

pub data Op : Type 0 where
  gets : String → ℕ → Op
  sets : String → Bytes → ℕ → Op

abbrev pub apply : Op → LruCache → LruCache
apply (gets k now) c = (get k now c).0
apply (sets k v now) c = set k v now c

unfoldable pub run : LruCache → List Op → LruCache
run c [] = c
run c (o ∷ os) = run (apply o c) os

pub run-Inv : (c : LruCache) (os : List Op) → Inv c → Inv (run c os)
unfolding run
run-Inv c [] i = i
run-Inv c (gets k now ∷ os) i = run-Inv (get k now c).0 os (get-Inv k now c i)
run-Inv c (sets k v now ∷ os) i = run-Inv (set k v now c) os (set-Inv k v now c i)

capacity_kept : (c : LruCache) (o : Op) → (apply o c).capacity ≡ c.capacity
unfolding set
capacity_kept c (gets k now) =
    get_cases (λ r. r.0.capacity ≡ c.capacity) k now c (λ _. refl) (λ _ _ _ _. refl)
      (λ _ _ _ _. refl)
capacity_kept c (sets k v now) = refl

run_capacity : (c : LruCache) (os : List Op) → (run c os).capacity ≡ c.capacity
unfolding run
run_capacity c [] = refl
run_capacity c (o ∷ os) = run_capacity (apply o c) os ∙ capacity_kept c o

-- After any history of a new cache, the entries and the recency list are no more than the capacity.
pub run_bounded :
    (capacity ttl : ℕ) (os : List Op)
    → let c = run (new capacity ttl) os in (length c.entries ≤ capacity) × (length c.lru ≤ capacity)
unfolding new
run_bounded capacity ttl os =
    let i = run-Inv (new capacity ttl) os (new-Inv capacity ttl) in
    let c = run (new capacity ttl) os in
    let e : c.capacity ≡ capacity = run_capacity (new capacity ttl) os in
    let b = length-Tracked c.lru c.entries i.distinct i.tracked in
    (omega (arith, e, b, i.bounded), omega (arith, e, i.bounded))
