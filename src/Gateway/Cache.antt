-- ===== src/Gateway/Cache.antt =====
-- src/gateway/cache.rs: the LRU cache, the TTL cache and the two levels together. The clock's
-- reading is an argument; the counters are `u64`.
pub mod Bounded
pub mod Latest
pub mod Levels
mod Tests
use aqua_rust.Common.{
  u64, ℕ, ◌+◌, ◌-◌, ◌%◌, ◌^◌, String, Bool, true, false, not, Option, none, some, List, [], ◌∷◌,
  ◌++◌, Map, lookup, insert, remove, filter, length, ltb, is_same, if◌then◌else◌,
}

abbrev pub Bytes : Type 0
Bytes = List ℕ

pub record LruCache : Type 0 where
  pub capacity : ℕ
  pub default_ttl : ℕ
  pub entries : Map (Bytes × ℕ)
  pub lru : List String
  pub hits : ℕ
  pub misses : ℕ

unfoldable pub new : ℕ → ℕ → LruCache
new capacity ttl = record {
  capacity = capacity;
  default_ttl = ttl;
  entries = [];
  lru = [];
  hits = 0;
  misses = 0;
}

-- `lru.retain(|k| k != key); lru.push(key)`.
abbrev pub touch : String → List String → List String
touch key lru = filter (λ k. not (is_same k key)) lru ++ (key ∷ [])

-- The oldest use stands first.
unfoldable pub get : String → ℕ → LruCache → LruCache × Option Bytes
get key now c = elim (lookup key c.entries) [
  | none ↦ (c, none)
  | some (v, t) ↦
      if ltb c.default_ttl (now - t)
      then (record c { entries = remove key c.entries; misses = u64 (c.misses + 1) }, none)
      else (record c { lru = touch key c.lru; hits = u64 (c.hits + 1) }, some v)
]

-- `while lru.len() > self.capacity`.
unfoldable pub evict : ℕ → List String → Map (Bytes × ℕ) → List String × Map (Bytes × ℕ)
evict cap [] m = ([], m)
evict cap (k ∷ lru) m =
    if ltb cap (length (k ∷ lru)) then evict cap lru (remove k m) else (k ∷ lru, m)

unfoldable pub set : String → Bytes → ℕ → LruCache → LruCache
set key value now c =
    let (lru, entries) = evict c.capacity (touch key c.lru) (insert key (value, now) c.entries) in
    record c { lru = lru; entries = entries }

abbrev pub stats : LruCache → ℕ × ℕ
stats c = (c.hits, c.misses)

pub record TtlCache : Type 0 where
  pub default_ttl : ℕ
  pub entries : Map (Bytes × ℕ)

unfoldable pub ttl_get : String → ℕ → TtlCache → TtlCache × Option Bytes
ttl_get key now c = elim (lookup key c.entries) [
  | none ↦ (c, none)
  | some (v, t) ↦
      if ltb c.default_ttl (now - t)
      then (record c { entries = remove key c.entries }, none)
      else (c, some v)
]

unfoldable pub ttl_set : String → Bytes → ℕ → TtlCache → TtlCache
ttl_set key value now c = record c { entries = insert key (value, now) c.entries }

pub record MultiLevelCache : Type 0 where
  pub l1 : LruCache
  pub l2 : TtlCache

unfoldable pub level_new : ℕ → ℕ → ℕ → MultiLevelCache
level_new l1_capacity l1_ttl l2_ttl = record {
  l1 = new l1_capacity l1_ttl;
  l2 = record { default_ttl = l2_ttl; entries = [] };
}

-- The second level, after a miss of the first.
promote : String → ℕ → LruCache → TtlCache × Option Bytes → MultiLevelCache × Option Bytes
promote key now l1 (l2, none) = (record { l1 = l1; l2 = l2 }, none)
promote key now l1 (l2, some v) = (record { l1 = set key v now l1; l2 = l2 }, some v)

read_second :
    String → ℕ → MultiLevelCache → LruCache × Option Bytes → MultiLevelCache × Option Bytes
read_second key now c (l1, some v) = (record c { l1 = l1 }, some v)
read_second key now c (l1, none) = promote key now l1 (ttl_get key now c.l2)

unfoldable pub level_get : String → ℕ → MultiLevelCache → MultiLevelCache × Option Bytes
unfolding read_second promote
level_get key now c = read_second key now c (get key now c.l1)

unfoldable pub level_set : String → Bytes → ℕ → MultiLevelCache → MultiLevelCache
level_set key value now c = record { l1 = set key value now c.l1; l2 = ttl_set key value now c.l2 }
