-- ===== src/Gateway/Cache/Latest.antt =====
-- The values that the LRU cache returns, against the writes of its history.
use aqua_rust.Common.{
  Stored, remove-Stored, insert-Stored, ℕ, ◌-◌, ◌≤◌, ◌<◌, ◌≡◌, refl, String, Option, none, some,
  List, [], ◌∷◌, Map, lookup, insert, remove, length, ltb, lookup-insert, lookup-remove, arith, ◌∙◌,
  string_discrete, ite, Bool-cases, inl, inr,
}
use aqua_rust.Gateway.Cache.{Bytes, LruCache, new, get, set, touch, evict}
use aqua_rust.Gateway.Cache.Bounded.{get_cases, Op, gets, sets, apply, run}

-- The last write of each key, with its time.
abbrev pub Writes : Type 0
Writes = String → Option (Bytes × ℕ)

abbrev pub no_writes : Writes
no_writes k = none

abbrev pub write : String → Bytes → ℕ → Writes → Writes
write k v now w j = ite (string_discrete k j) (some (v, now)) (w j)

abbrev pub written : Writes → List Op → Writes
written w [] = w
written w (gets k now ∷ os) = written w os
written w (sets k v now ∷ os) = written (write k v now w) os

module _ (Q : String → Bytes × ℕ → Type 0) where
  pub evict-Stored :
      (cap : ℕ) (l : List String) (m : Map (Bytes × ℕ)) → Stored Q m → Stored Q (evict cap l m).1
  unfolding evict
  evict-Stored cap [] m s = s
  evict-Stored cap (j ∷ l) m s = elim (Bool-cases (ltb cap (length (j ∷ l)))) [
    | inl e ↦ rw e (evict-Stored cap l (remove j m) (remove-Stored Q j m s))
    | inr e ↦ rw e s
  ]

  pub get-Stored :
      (k : String) (now : ℕ) (c : LruCache) → Stored Q c.entries → Stored Q (get k now c).0.entries
  get-Stored k now c s =
      get_cases (λ r. Stored Q r.0.entries) k now c (λ _. s)
        (λ _ _ _ _. remove-Stored Q k c.entries s) (λ _ _ _ _. s)

-- What is stored is what was written last.
abbrev pub Sound : Map (Bytes × ℕ) → Writes → Type 0
Sound m w = Stored (λ k e. w k ≡ some e) m

pub insert-Sound :
    (k : String) (v : Bytes) (now : ℕ) (m : Map (Bytes × ℕ)) (w : Writes)
    → Sound m w
    → Sound (insert k (v, now) m) (write k v now w)
insert-Sound k v now m w =
    insert-Stored (λ j e. w j ≡ some e) (λ j e. write k v now w j ≡ some e) k (v, now) m
      (λ j f n h. ground arith) (ground arith)

run-Sound :
    (c : LruCache) (os : List Op) (w : Writes)
    → Sound c.entries w
    → Sound (run c os).entries (written w os)
unfolding run set
run-Sound c [] w s = s
run-Sound c (gets k now ∷ os) w s =
    run-Sound (get k now c).0 os w (get-Stored (λ j e. w j ≡ some e) k now c s)
run-Sound c (sets k v now ∷ os) w s =
    run-Sound (set k v now c) os (write k v now w)
      (evict-Stored (λ j e. write k v now w j ≡ some e) _ _ _ (insert-Sound k v now c.entries w s))

ttl_kept : (c : LruCache) (o : Op) → (apply o c).default_ttl ≡ c.default_ttl
unfolding set
ttl_kept c (gets k now) =
    get_cases (λ r. r.0.default_ttl ≡ c.default_ttl) k now c (λ _. refl) (λ _ _ _ _. refl)
      (λ _ _ _ _. refl)
ttl_kept c (sets k v now) = refl

run_ttl : (c : LruCache) (os : List Op) → (run c os).default_ttl ≡ c.default_ttl
unfolding run
run_ttl c [] = refl
run_ttl c (o ∷ os) = run_ttl (apply o c) os ∙ ttl_kept c o

-- A value that `get` returns after any history is the one that the last `set` of that key wrote,
-- and is not older than the time to live.
pub get_returns_latest :
    (capacity ttl : ℕ) (os : List Op) (k : String) (now : ℕ) (v : Bytes)
    → (get k now (run (new capacity ttl) os)).1 ≡ some v
    → (t : ℕ) × (written no_writes os k ≡ some (v, t)) × (now - t ≤ ttl)
unfolding new
get_returns_latest capacity ttl os k now v =
    let c = run (new capacity ttl) os in
    let s = run-Sound (new capacity ttl) os no_writes (λ j e h. unfold lookup in cc h) in
    let old : c.default_ttl ≡ ttl = run_ttl (new capacity ttl) os in
    get_cases
      (λ r. r.1 ≡ some v → (t : ℕ) × (written no_writes os k ≡ some (v, t)) × (now - t ≤ ttl)) k now
      c (λ _ h. absurd (cc)) (λ _ _ _ _ h. absurd (cc))
      (λ u t e fresh h. (t, s k (v, t) (e ∙ cc), omega (arith, fresh, old)))

touched_last :
    (cap : ℕ) (k : String) (l : List String) (m : Map (Bytes × ℕ))
    → 0 < cap
    → lookup k (evict cap (touch k l) m).1 ≡ lookup k m
unfolding evict
touched_last cap k [] m h = ground arith
touched_last cap k (j ∷ l) m h =
    ground
      (arith, touched_last cap k l m h, touched_last cap k l (remove j m) h, lookup-remove j k m)

-- A value is found again until its time to live has passed, if the cache can hold an entry.
pub set-get :
    (c : LruCache) (k : String) (v : Bytes) (now later : ℕ)
    → 0 < c.capacity
    → later - now ≤ c.default_ttl
    → (get k later (set k v now c)).1 ≡ some v
unfolding get set
set-get c k v now later p q = ground (
  arith,
  touched_last c.capacity k c.lru (insert k (v, now) c.entries) p,
  lookup-insert k k (v, now) c.entries,
)
