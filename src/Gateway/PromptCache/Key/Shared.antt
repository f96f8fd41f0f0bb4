-- ===== src/Gateway/PromptCache/Key/Shared.antt =====
-- src/gateway/prompt_cache.rs: which requests share a key.
use aqua_rust.Common.{String, false, some, ◌==◌, ◌≡◌}
use aqua_rust.Common.Json.{Value, get, and_str, Items, array}
use aqua_rust.Gateway.PromptCache.Key.{is_uncached}
use Prim.Native.Char.{code}
use Prim.Native.String.{◌++◌}

-- No `[` stands in the text.
abbrev pub NoBracket : String → Type 0
NoBracket String.[] = Unit
NoBracket (String.◌∷◌ c s) = ((code c == b'[') ≡ false) × NoBracket s

-- What JSON says of a printed array: it begins with `[`, and where one ends in a text does not hang
-- on what stands behind it.
pub record ArrayLaws (print : Value → String) : Type 0 where
  pub opens : (xs : Items) → (t : String) × (print (array xs) ≡ String.◌∷◌ "[" t)
  pub ends_alike :
      (xs ys : Items) (s t : String)
      → print (array xs) ++ s ≡ print (array ys) ++ t
      → print (array xs) ≡ print (array ys)

module _ (print : Value → String) (hash_sha256 : String → String) where
  -- A request that the cache keeps, with its model and its messages.
  abbrev pub IsKept : Value → String → Items → Type 0
  IsKept v model messages =
      (and_str (get "model" v) ≡ some model)
      × (get "messages" v ≡ some (array messages))
      × (is_uncached print hash_sha256 v ≡ false)
      × NoBracket model
