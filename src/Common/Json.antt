-- ===== src/Common/Json.antt =====
-- `serde_json::Value`, as the code builds it and takes it apart. An object is the list of its
-- fields; the code reads fields by name only.
use Prim.Native.Nat.{ℕ}
use Prim.Native.String.{String}
use mathlib.Core.Path.{◌≡◌, refl}
use mathlib.Core.Bool.{Bool, true, false}
use mathlib.Core.List.{List, [], ◌∷◌}
use mathlib.Core.Option.{Option, none, some}
use native.Mathlib.Omega.{arith}
use text.Mathlib.Text.{◌==◌ as str_eq}
use text.Mathlib.TextEquality.{eq_iff}
use aqua_rust.Common.Tests.{if◌then◌else◌}

-- A `u64`, a negative `i64` as -(n + 1), and a finite `f64`, as sign (true if it is below 0),
-- significand and the powers of two that multiply and divide it.
pub data Number : Type 0 where
  pos_int : ℕ → Number
  neg_int : ℕ → Number
  float : Bool → ℕ → ℕ → ℕ → Number

mutual
  pub data Value : Type 0 where
    null : Value
    bool : Bool → Value
    number : Number → Value
    string : String → Value
    array : Items → Value
    object : Fields → Value

  pub data Items : Type 0 where
    nil : Items
    cons : Value → Items → Items

  pub data Fields : Type 0 where
    end : Fields
    field : String → Value → Fields → Fields

abbrev pub elements : Items → List Value
elements nil = []
elements (cons v vs) = v ∷ elements vs

abbrev pub items : List Value → Items
items [] = nil
items (v ∷ vs) = cons v (items vs)

-- `Value::Array` of a `Vec`, and `json!` of an object.
abbrev pub arr : List Value → Value
arr vs = array (items vs)

abbrev pub fields : List (String × Value) → Fields
fields [] = end
fields ((k, v) ∷ fs) = field k v (fields fs)

abbrev pub obj : List (String × Value) → Value
obj fs = object (fields fs)

abbrev pub nat : ℕ → Value
nat n = number (pos_int n)

-- Pushing the end of a list of elements back to the list.
pub elements-items : (vs : List Value) → elements (items vs) ≡ vs
elements-items [] = refl
elements-items (v ∷ vs) = ground (arith, elements-items vs)

abbrev pub find_field : String → Fields → Option Value
find_field k end = none
find_field k (field j v fs) = if str_eq j k then some v else find_field k fs

abbrev pub put_field : String → Value → Fields → Fields
put_field k v end = field k v end
put_field k v (field j w fs) = if str_eq j k then field j v fs else field j w (put_field k v fs)

-- `v.get(k)`.
abbrev pub get : String → Value → Option Value
get k null = none
get k (bool b) = none
get k (number n) = none
get k (string s) = none
get k (array vs) = none
get k (object fs) = find_field k fs

-- `.and_then(|v| v.get(k))`.
abbrev pub and_get : String → Option Value → Option Value
and_get k none = none
and_get k (some v) = get k v

-- `.unwrap_or(d)` of a value, and `v[k]`.
abbrev pub or_value : Value → Option Value → Value
or_value d none = d
or_value d (some v) = v

abbrev pub index : Value → String → Value
index v k = or_value null (get k v)

-- `v[k] = w`, on an object.
abbrev pub put : String → Value → Value → Value
put k w (object fs) = object (put_field k w fs)
put k w null = object (field k w end)
put k w (bool b) = bool b
put k w (number n) = number n
put k w (string s) = string s
put k w (array vs) = array vs

abbrev pub as_str : Value → Option String
as_str (string s) = some s
as_str null = none
as_str (bool b) = none
as_str (number n) = none
as_str (array vs) = none
as_str (object fs) = none

abbrev pub and_str : Option Value → Option String
and_str none = none
and_str (some v) = as_str v

abbrev pub as_bool : Value → Option Bool
as_bool (bool b) = some b
as_bool null = none
as_bool (number n) = none
as_bool (string s) = none
as_bool (array vs) = none
as_bool (object fs) = none

abbrev pub as_array : Value → Option (List Value)
as_array (array vs) = some (elements vs)
as_array null = none
as_array (bool b) = none
as_array (number n) = none
as_array (string s) = none
as_array (object fs) = none

abbrev pub and_array : Option Value → Option (List Value)
and_array none = none
and_array (some v) = as_array v

abbrev pub is_object : Value → Bool
is_object (object fs) = true
is_object null = false
is_object (bool b) = false
is_object (number n) = false
is_object (string s) = false
is_object (array vs) = false

abbrev pub is_null : Value → Bool
is_null null = true
is_null (bool b) = false
is_null (number n) = false
is_null (string s) = false
is_null (array vs) = false
is_null (object fs) = false

-- `.unwrap_or_default()` of a list, and of a text.
abbrev pub or_empty : Option (List Value) → List Value
or_empty none = []
or_empty (some vs) = vs

abbrev pub or_text : String → Option String → String
or_text d none = d
or_text d (some s) = s

-- `v.as_str() == Some(t)`.
abbrev pub is_text : String → Option String → Bool
is_text t none = false
is_text t (some s) = str_eq s t

-- `iter().filter_map(f).collect()`.
abbrev pub filter_map {ℓ} : {A : Type ℓ} → (Value → Option A) → List Value → List A
filter_map f [] = []
filter_map f (v ∷ vs) = elim (f v) [ none ↦ filter_map f vs | some a ↦ a ∷ filter_map f vs ]

pub find_field-put_field :
    (k j : String) (v : Value) (fs : Fields)
    → find_field j (put_field k v fs) ≡ (if str_eq k j then some v else find_field j fs)
find_field-put_field k j v end = refl
find_field-put_field k j v (field i w fs) =
    ground (arith, eq_iff i k, eq_iff i j, eq_iff k j, find_field-put_field k j v fs)

-- The first of two that is there.
abbrev pub or_option {ℓ} : {A : Type ℓ} → Option A → Option A → Option A
or_option none o = o
or_option (some a) o = some a

pub get-put :
    (k j : String) (v w : Value)
    → is_object w ≡ true
    → get j (put k v w) ≡ (if str_eq k j then some v else get j w)
get-put k j v null h = absurd (cc)
get-put k j v (bool b) h = absurd (cc)
get-put k j v (number n) h = absurd (cc)
get-put k j v (string s) h = absurd (cc)
get-put k j v (array vs) h = absurd (cc)
get-put k j v (object fs) h = find_field-put_field k j v fs

pub is_object-put : (k : String) (v w : Value) → is_object w ≡ true → is_object (put k v w) ≡ true
is_object-put k v null h = absurd (cc)
is_object-put k v (bool b) h = absurd (cc)
is_object-put k v (number n) h = absurd (cc)
is_object-put k v (string s) h = absurd (cc)
is_object-put k v (array vs) h = absurd (cc)
is_object-put k v (object fs) h = refl
