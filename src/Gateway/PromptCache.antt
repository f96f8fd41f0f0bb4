-- ===== src/Gateway/PromptCache.antt =====
-- src/gateway/prompt_cache.rs: the cache of whole responses; its keys are made in Key.
pub mod Key
pub mod Latest
mod Tests
use aqua_rust.Common.{
  ℕ, ◌-◌, String, Bool, true, false, Option, none, some, List, [], ◌∷◌, Map, lookup, insert, remove,
  retain, length, ltb, leb, if◌then◌else◌, secs,
}

abbrev pub cache_ttl : ℕ
cache_ttl = secs 600

abbrev pub cache_max_entries : ℕ
cache_max_entries = 5000

abbrev pub is_live : ℕ → ℕ → Bool
is_live now t = ltb (now - t) cache_ttl

module _ {ℓ} (V : Type ℓ) where
  -- The entries, with the time of each.
  abbrev pub PromptCache : Type ℓ
  PromptCache = Map (ℕ × V)

  unfoldable pub get : String → ℕ → PromptCache → PromptCache × Option V
  get key now c = elim (lookup key c) [
    | none ↦ (c, none)
    | some (t, v) ↦ if is_live now t then (c, some v) else (remove key c, none)
  ]

  abbrev pub make_room : ℕ → PromptCache → PromptCache
  make_room now c =
      if leb cache_max_entries (length c) then retain (λ k e. is_live now e.0) c else c

  unfoldable pub put : String → V → ℕ → PromptCache → PromptCache
  put key value now c = insert key (now, value) (make_room now c)

  abbrev pub len : PromptCache → ℕ
  len c = length c
