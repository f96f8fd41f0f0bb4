-- ===== src/Gateway/Cache/Tests.antt =====
-- Runs of the caches at concrete inputs.
use aqua_rust.Common.{
  ℕ, ◌-◌, ◌≤◌, ◌≡◌, refl, none, some, List, [], ◌∷◌, length, lookup, insert, remove,
  string_discrete,
}
use aqua_rust.Gateway.Cache.{LruCache, new, get, set, evict}
use aqua_rust.Gateway.Cache.Bounded.{Op, gets, sets, run, run_bounded}
use aqua_rust.Gateway.Cache.Latest.{no_writes, written, get_returns_latest}

abbrev three_writes : List Op
three_writes = sets "a" (1 ∷ []) 0 ∷ sets "b" (2 ∷ []) 1 ∷ gets "a" 2 ∷ sets "c" (3 ∷ []) 3 ∷ []

-- The least recently used of three is gone.
three_writes_evict : (get "b" 4 (run (new 2 60) three_writes)).1 ≡ none
unfolding get run new set evict lookup insert remove string_discrete
three_writes_evict = refl

run_bounded_example :
    let c = run (new 2 60) three_writes in (length c.entries ≤ 2) × (length c.lru ≤ 2)
run_bounded_example = run_bounded 2 60 three_writes

get_returns_latest_example :
    (t : ℕ) × (written no_writes three_writes "a" ≡ some (1 ∷ [], t)) × (4 - t ≤ 60)
unfolding get run new set evict lookup insert remove string_discrete
get_returns_latest_example = get_returns_latest 2 60 three_writes "a" 4 (1 ∷ []) refl

abbrev full : LruCache
full = record {
  capacity = 1;
  default_ttl = 60;
  entries = ("a", (1 ∷ [], 0)) ∷ [];
  lru = "a" ∷ [];
  hits = 0;
  misses = 0;
}

-- Read from the second level at 290, and from the copy at 340.
abbrev copied_late : List Op
copied_late = sets "a" (1 ∷ []) 0 ∷ gets "a" 290 ∷ []
