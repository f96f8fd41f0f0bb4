-- ===== src/Gateway/Cache/Levels.antt =====
-- The two levels together: what a read returns, and how old it can be.
use aqua_rust.Common.{
  Stored, remove-Stored, insert-Stored, ℕ, ◌+◌, ◌-◌, ◌≤◌, ◌<◌, ◌≡◌, refl, ◌≢◌, String, Option, none,
  some, List, [], ◌∷◌, lookup, remove, ltb, arith, ◌∙◌, Bool-cases, Option-cases, inl, inr, tests,
}
use aqua_rust.Gateway.Cache.{
  Bytes, LruCache, TtlCache, MultiLevelCache, new, get, set, ttl_get, ttl_set, level_get, level_set,
  promote, read_second, level_new,
}
use aqua_rust.Gateway.Cache.Bounded.{Op, gets, sets, get_cases}
use aqua_rust.Gateway.Cache.Latest.{
  Writes, no_writes, write, written, Sound, evict-Stored, insert-Sound,
}

-- An entry of the first level that was copied from the second at most `ttl` after its write.
abbrev Copied : ℕ → Writes → String → Bytes × ℕ → Type 0
Copied ttl w k (v, t) = (s : ℕ) × (w k ≡ some (v, s)) × (t ≤ s + ttl)

record Inv (c : MultiLevelCache) (w : Writes) (ttl1 ttl2 : ℕ) : Type 0 where
  first : Stored (Copied ttl2 w) c.l1.entries
  second : Sound c.l2.entries w
  ttl_first : c.l1.default_ttl ≡ ttl1
  ttl_second : c.l2.default_ttl ≡ ttl2

ttl_cases {ℓ} :
    (P : TtlCache × Option Bytes → Type ℓ) (k : String) (now : ℕ) (c : TtlCache)
    → (lookup k c.entries ≡ none → P (c, none))
    → ((v : Bytes) (t : ℕ)
        → lookup k c.entries ≡ some (v, t)
        → c.default_ttl < now - t
        → P (record c { entries = remove k c.entries }, none))
    → ((v : Bytes) (t : ℕ)
        → lookup k c.entries ≡ some (v, t)
        → now - t ≤ c.default_ttl
        → P (c, some v))
    → P (ttl_get k now c)
unfolding ttl_get
ttl_cases P k now c absent stale fresh = elim (Option-cases (lookup k c.entries)) [
  | inl e ↦ rw (e, ttl_get) (absent e)
  | inr ((v, t), e) ↦ elim (Bool-cases (ltb c.default_ttl (now - t))) [
    | inl old ↦ rw (e, ttl_get, old) (stale v t e (omega tests))
    | inr young ↦ rw (e, ttl_get, young) (fresh v t e (ground arith))
  ]
]

set-Copied :
    (ttl : ℕ) (k : String) (v : Bytes) (t : ℕ) (c : LruCache) (w u : Writes)
    → ((j : String) (f : Bytes × ℕ) → k ≢ j → Copied ttl w j f → Copied ttl u j f)
    → Copied ttl u k (v, t)
    → Stored (Copied ttl w) c.entries
    → Stored (Copied ttl u) (set k v t c).entries
unfolding set
set-Copied ttl k v t c w u keep h s =
    evict-Stored (Copied ttl u) _ _ _
      (insert-Stored (Copied ttl w) (Copied ttl u) k (v, t) c.entries keep h s)

set_ttl :
    (k : String) (v : Bytes) (t : ℕ) (c : LruCache) → (set k v t c).default_ttl ≡ c.default_ttl
unfolding set
set_ttl k v t c = refl

get_ttl : (k : String) (now : ℕ) (c : LruCache) → (get k now c).0.default_ttl ≡ c.default_ttl
get_ttl k now c =
    get_cases (λ r. r.0.default_ttl ≡ c.default_ttl) k now c (λ _. refl) (λ _ _ _ _. refl)
      (λ _ _ _ _. refl)

module _ (w : Writes) (ttl1 ttl2 : ℕ) where
  -- What a read of either level gives: a cache that is well formed, and a value not too old.
  abbrev Fine : ℕ → String → MultiLevelCache × Option Bytes → Type 0
  Fine now k (c, r) =
      Inv c w ttl1 ttl2
      × ((v : Bytes) → r ≡ some v → (s : ℕ) × (w k ≡ some (v, s)) × (now ≤ s + ttl1 + ttl2))

  promote-Fine :
      (k : String) (now : ℕ) (l1 : LruCache) (c : MultiLevelCache)
      → Inv c w ttl1 ttl2
      → Stored (Copied ttl2 w) l1.entries
      → l1.default_ttl ≡ ttl1
      → Fine now k (promote k now l1 (ttl_get k now c.l2))
  unfolding promote
  promote-Fine k now l1 c i s e =
      ttl_cases (λ r. Fine now k (promote k now l1 r)) k now c.l2
        (λ _. (
          record { first = s; second = i.second; ttl_first = e; ttl_second = i.ttl_second },
          λ v h. absurd (cc),
        ))
        (λ u t _ _. (
          record {
            first = s;
            second = remove-Stored (λ j f. w j ≡ some f) k c.l2.entries i.second;
            ttl_first = e;
            ttl_second = i.ttl_second;
          },
          λ v h. absurd (cc),
        ))
        (λ u t at young.
          let here : w k ≡ some (u, t) = i.second k (u, t) at in
          let near : now ≤ t + ttl2 = omega (arith, young, i.ttl_second) in
          (
            record {
              first = set-Copied ttl2 k u now l1 w w (λ _ _ _ q. q) (t, here, near) s;
              second = i.second;
              ttl_first = set_ttl k u now l1 ∙ e;
              ttl_second = i.ttl_second;
            },
            λ v h. (t, here ∙ cc, omega (arith, near)),
          ))

  level_get-Fine :
      (k : String) (now : ℕ) (c : MultiLevelCache)
      → Inv c w ttl1 ttl2
      → Fine now k (level_get k now c)
  unfolding level_get
  level_get-Fine k now c i =
      get_cases (λ r. Fine now k (read_second k now c r)) k now c.l1
        (λ _. promote-Fine k now c.l1 c i i.first i.ttl_first)
        (λ u t _ _.
          promote-Fine k now _ c i (remove-Stored (Copied ttl2 w) k c.l1.entries i.first)
            i.ttl_first)
        (λ u t at young.
          let (s, here, near) = i.first k (u, t) at in
          (
            record {
              first = i.first;
              second = i.second;
              ttl_first = i.ttl_first;
              ttl_second = i.ttl_second;
            },
            λ v h. (s, here ∙ cc, omega (arith, near, young, i.ttl_first)),
          ))

level_set-Inv :
    (k : String) (v : Bytes) (now : ℕ) (c : MultiLevelCache) (w : Writes) (ttl1 ttl2 : ℕ)
    → Inv c w ttl1 ttl2
    → Inv (level_set k v now c) (write k v now w) ttl1 ttl2
unfolding level_set ttl_set
level_set-Inv k v now c w ttl1 ttl2 i = record {
  first =
      set-Copied ttl2 k v now c.l1 w (write k v now w) (λ j f n (s, e, le). (s, ground arith, le))
        (now, ground arith, omega arith) i.first;
  second = insert-Sound k v now c.l2.entries w i.second;
  ttl_first = set_ttl k v now c.l1 ∙ i.ttl_first;
  ttl_second = i.ttl_second;
}

unfoldable pub level_run : MultiLevelCache → List Op → MultiLevelCache
level_run c [] = c
level_run c (gets k now ∷ os) = level_run (level_get k now c).0 os
level_run c (sets k v now ∷ os) = level_run (level_set k v now c) os

level_run-Inv :
    (c : MultiLevelCache) (os : List Op) (w : Writes) (ttl1 ttl2 : ℕ)
    → Inv c w ttl1 ttl2
    → Inv (level_run c os) (written w os) ttl1 ttl2
unfolding level_run
level_run-Inv c [] w ttl1 ttl2 i = i
level_run-Inv c (gets k now ∷ os) w ttl1 ttl2 i =
    level_run-Inv (level_get k now c).0 os w ttl1 ttl2 (level_get-Fine w ttl1 ttl2 k now c i).0
level_run-Inv c (sets k v now ∷ os) w ttl1 ttl2 i =
    level_run-Inv (level_set k v now c) os (write k v now w) ttl1 ttl2
      (level_set-Inv k v now c w ttl1 ttl2 i)

-- A value that the two levels return after any history of reads and writes is the one written last
-- under its key, at most the sum of both times to live ago: a copy into the first level starts a
-- term of its own.
pub level_get_returns_latest :
    (capacity ttl1 ttl2 : ℕ) (os : List Op) (k : String) (now : ℕ) (v : Bytes)
    → (level_get k now (level_run (level_new capacity ttl1 ttl2) os)).1 ≡ some v
    → (s : ℕ) × (written no_writes os k ≡ some (v, s)) × (now ≤ s + ttl1 + ttl2)
unfolding level_new new
level_get_returns_latest capacity ttl1 ttl2 os k now v =
    let i = level_run-Inv (level_new capacity ttl1 ttl2) os no_writes ttl1 ttl2 (record {
      first = λ j e h. unfold lookup in absurd (cc h);
      second = λ j e h. unfold lookup in cc h;
      ttl_first = refl;
      ttl_second = refl;
    }) in
    (level_get-Fine (written no_writes os) ttl1 ttl2 k now _ i).1 v
