-- ===== src/Gateway/PromptCache/Tests.antt =====
-- The prompt cache at concrete operations.
use aqua_rust.Common.{
  ℕ, ◌≡◌, refl, none, some, List, [], ◌∷◌, secs, arith, lookup, insert, remove, retain,
  string_discrete, String,
}
use aqua_rust.Gateway.PromptCache.{get, put}
use aqua_rust.Common.Json.{
  Value, array, bool, number, object, arr, null, obj, get as get_json, put as put_json, string,
}
use aqua_rust.Gateway.PromptCache.Key.{build_key}
use aqua_rust.Gateway.PromptCache.Key.Shared.{ArrayLaws}
use aqua_rust.Gateway.PromptCache.Latest.{
  Op, gets, puts, perform_all, last_write, live, get_returns_last_write,
}

abbrev ops : List (Op ℕ)
ops = puts "k" 1 (secs 10) ∷ puts "j" 2 (secs 20) ∷ gets "j" (secs 30) ∷ puts "k" 3 (secs 40) ∷ []

second_write : (get ℕ "k" (secs 50) (perform_all ops [])).1 ≡ some 3
unfolding get put perform_all lookup insert remove retain string_discrete
second_write = refl

get_returns_last_write_example :
    (get ℕ "k" (secs 50) (perform_all ops [])).1 ≡ live (secs 50) (last_write "k" none ops)
get_returns_last_write_example =
    get_returns_last_write "k" 0 (secs 50) ops
      (omega arith, (omega arith, (omega arith, (omega arith, omega arith))))

-- A request that says nothing of its temperature, and one of another format; arrays are printed
-- as `[]`, all else as one digit, and nothing is hashed.
abbrev request : Value
request = obj (("model", string "m") ∷ ("messages", arr []) ∷ [])

abbrev formatted : Value
formatted = put_json "response_format" (string "json") request

abbrev print : Value → String
print (array xs) = "[]"
print null = "0"
print (bool b) = "1"
print (number n) = "2"
print (string s) = "3"
print (object fs) = "4"

abbrev print_laws : ArrayLaws print
print_laws = record { opens = λ xs. ("]", refl); ends_alike = λ xs ys s t e. refl }

abbrev same : String → String
same s = s

unsaid_temperature : build_key print same request ≡ some "v1:m[]"
unfolding build_key
unsaid_temperature = refl
