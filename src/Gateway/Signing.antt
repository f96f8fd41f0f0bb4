-- ===== src/Gateway/Signing.antt =====
-- src/gateway/signing.rs: the check of a signed token. A text is the list of its bytes. The keyed
-- hash in hexadecimal (`sign`) and the decoding of base64 and UTF-8 are arguments; times are seconds
-- since the epoch, the clock's not below 0.
pub mod Equal
pub mod Issue
pub mod Replay
pub mod RoundTrip
mod Tests
use Prim.Native.Nat.{bit_or, bit_xor}
use aqua_rust.Common.{
  ℕ, zero, suc, ◌+◌, ◌-◌, ◌*◌, Bool, true, false, not, ◌&&◌, Option, none, some, List, [], ◌∷◌,
  Result, ok, err, ℤ, pos, negsuc, filter, any, length, ltb, leb, ◌==◌, if◌then◌else◌,
}

abbrev pub Text : Type 0
Text = List ℕ

abbrev pub sign_window_secs : ℕ
sign_window_secs = 300

abbrev pub nonce_cache_max : ℕ
nonce_cache_max = 10000

abbrev pub nonce_cache_ttl_secs : ℕ
nonce_cache_ttl_secs = 600

-- The fold over the pairs of bytes.
unfoldable pub differences : ℕ → Text → Text → ℕ
differences acc [] b = acc
differences acc (x ∷ a) [] = acc
differences acc (x ∷ a) (y ∷ b) = differences (bit_or acc (bit_xor x y)) a b

unfoldable pub constant_eq : Text → Text → Bool
constant_eq a b = if not (length a == length b) then false else differences 0 a b == 0

unfoldable pub rsplit_once : ℕ → Text → Option (Text × Text)
rsplit_once c [] = none
rsplit_once c (x ∷ s) = elim (rsplit_once c s) [
  | some (p, q) ↦ some (x ∷ p, q)
  | none ↦ if x == c then some ([], s) else none
]

abbrev pub in_front : ℕ → List Text → List Text
in_front x [] = (x ∷ []) ∷ []
in_front x (p ∷ ps) = (x ∷ p) ∷ ps

unfoldable pub split : ℕ → Text → List Text
split c [] = [] ∷ []
split c (x ∷ s) = if x == c then [] ∷ split c s else in_front x (split c s)

-- The digits of a number, at least one, after a number that is read already.
unfoldable pub parse_digits : ℕ → Text → Option ℕ
parse_digits n [] = some n
parse_digits n (c ∷ s) = if leb 48 c && leb c 57 then parse_digits (n * 10 + (c - 48)) s else none

unfoldable pub parse_unsigned : ℕ → Text → Option ℕ
parse_unsigned bound [] = none
parse_unsigned bound (c ∷ s) = elim (parse_digits 0 (c ∷ s)) [
  | none ↦ none
  | some n ↦ if leb n bound then some n else none
]

abbrev pub negated : Option ℕ → Option ℤ
negated none = none
negated (some n) = some (if n == 0 then pos 0 else negsuc (n - 1))

abbrev pub positive : Option ℕ → Option ℤ
positive none = none
positive (some n) = some (pos n)

-- `parse::<i64>`.
unfoldable pub parse_i64 : Text → Option ℤ
parse_i64 [] = none
parse_i64 (c ∷ s) =
    if c == b'-'
    then negated (parse_unsigned 9223372036854775808 s)
    else positive (parse_unsigned 9223372036854775807 (if c == b'+' then s else c ∷ s))

-- `(now - ts).abs()`.
abbrev pub distance : ℕ → ℤ → ℕ
distance now (pos t) = (now - t) + (t - now)
distance now (negsuc t) = now + t + 1

pub data SignError : Type 0 where
  invalid_format invalid_signature undecodable no_ts bad_ts no_nonce outside_window replay :
      SignError

-- The client, the time and the nonce of a payload.
pub record Claims : Type 0 where
  pub client_id : Text
  pub ts : ℤ
  pub nonce : Text

abbrev pub timed : Text → Text → Option ℤ → Result SignError Claims
timed client_id nonce none = err bad_ts
timed client_id nonce (some ts) = ok (record { client_id = client_id; ts = ts; nonce = nonce })

unfoldable pub parse_claims : List Text → Result SignError Claims
parse_claims (client_id ∷ (ts ∷ (nonce ∷ rest))) = timed client_id nonce (parse_i64 ts)
parse_claims (client_id ∷ (ts ∷ [])) = elim (parse_i64 ts) [
  | none ↦ err bad_ts
  | some t ↦ err no_nonce
]
parse_claims (client_id ∷ []) = err no_ts
parse_claims [] = err no_ts

module _ (sign : Text → Text) (decode : Text → Option Text) where
  unfoldable pub read_payload : Text → Result SignError Claims
  read_payload payload = elim (decode payload) [
    | none ↦ err undecodable
    | some text ↦ parse_claims (split b'.' text)
  ]

  -- The checks before the nonce.
  unfoldable pub read_token : Text → Result SignError Claims
  read_token token = elim (rsplit_once b'.' token) [
    | none ↦ err invalid_format
    | some (payload, sig) ↦
        if not (constant_eq sig (sign payload)) then err invalid_signature else read_payload payload
  ]

abbrev pub Nonces : Type 0
Nonces = List (Text × ℕ)

unfoldable pub same_text : Text → Text → Bool
same_text [] [] = true
same_text [] (y ∷ b) = false
same_text (x ∷ a) [] = false
same_text (x ∷ a) (y ∷ b) = (x == y) && same_text a b

abbrev pub is_fresh : ℕ → Text × ℕ → Bool
is_fresh now e = ltb (now - e.1) nonce_cache_ttl_secs

abbrev pub is_known : Text → Nonces → Bool
is_known nonce es = any (λ e. same_text e.0 nonce) es

-- `min_by_key` of the times, the first of equal ones.
unfoldable pub oldest : Text × ℕ → Nonces → Text × ℕ
oldest e [] = e
oldest e (d ∷ es) = oldest (if ltb d.1 e.1 then d else e) es

unfoldable pub drop_oldest : Nonces → Nonces
drop_oldest [] = []
drop_oldest (e ∷ es) = filter (λ d. not (same_text d.0 (oldest e es).0)) (e ∷ es)

-- As many as there are too many: a turn of the loop drops one entry.
unfoldable pub evict : ℕ → Nonces → Nonces
evict zero es = es
evict (suc n) es = evict n (drop_oldest es)

unfoldable pub admit_nonce : ℕ → Claims → Nonces → Nonces × Result SignError Text
admit_nonce now claims es =
    let kept = filter (is_fresh now) es in
    let added = (claims.nonce, now) ∷ kept in
    if is_known claims.nonce kept
    then (kept, err replay)
    else (evict (length added - nonce_cache_max) added, ok claims.client_id)

-- The time window, and then the nonce.
unfoldable pub admit : ℕ → Nonces → Result SignError Claims → Nonces × Result SignError Text
admit now es (err e) = (es, err e)
admit now es (ok claims) =
    if ltb sign_window_secs (distance now claims.ts)
    then (es, err outside_window)
    else admit_nonce now claims es

unfoldable pub verify_token :
    (Text → Text) → (Text → Option Text) → ℕ → Text → Nonces → Nonces × Result SignError Text
verify_token sign decode now token es = admit now es (read_token sign decode token)
