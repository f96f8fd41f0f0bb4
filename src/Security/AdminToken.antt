-- ===== src/Security/AdminToken.antt =====
-- src/security/admin_token.rs. Texts are lists of bytes. HMAC-SHA256 with its encoding, the encoding of
-- base64 and its decoding, and the printing and the parsing of the JSON of a payload are arguments.
-- `data` is a word of the language: that field is `content`. Times are seconds since the epoch, the clock's not below 0.
pub mod Accepts
mod Tests
use aqua_rust.Common.{
  ℕ, ◌+◌, ◌*◌, Bool, true, false, not, ◌&&◌, Option, none, some, List, [], ◌∷◌, ◌++◌, Result, ok,
  err, ◌>>=◌, ◌>>◌, guard, ltb, ◌==◌, if◌then◌else◌, ℤ, pos, negsuc,
}
use aqua_rust.Gateway.Signing.{Text, same_text}

abbrev pub admin_token_ttl_secs : ℕ
admin_token_ttl_secs = 8 * 3600

pub record AdminTokenPayload : Type 0 where
  pub exp : ℤ
  pub content : Text

pub data TokenError : Type 0 where
  invalid_format invalid_signature undecodable unreadable expired : TokenError

-- `sign` is the keyed hash in base64, `to_json` and `from_json` are those of the payload.
pub record Codec : Type 0 where
  pub sign : Text → Text
  pub encode : Text → Text
  pub decode : Text → Option Text
  pub to_json : AdminTokenPayload → Text
  pub from_json : Text → Option AdminTokenPayload

-- `str::split_once`.
unfoldable pub split_once : ℕ → Text → Option (Text × Text)
split_once c [] = none
split_once c (x ∷ s) =
    if x == c
    then some ([], s)
    else elim (split_once c s) [ none ↦ none | some (p, q) ↦ some (x ∷ p, q) ]

-- `ok_or` and `map_err`.
abbrev pub ok_or {ℓ κ} : {E : Type ℓ} {A : Type κ} → E → Option A → Result E A
ok_or e none = err e
ok_or e (some a) = ok a

abbrev pub payload_for : ℕ → Text → AdminTokenPayload
payload_for now content = record { exp = pos (now + admin_token_ttl_secs); content = content }

-- The time of the clock is behind that of the payload.
abbrev pub is_past : ℕ → ℤ → Bool
is_past now (pos t) = ltb t now
is_past now (negsuc t) = true

module _ (c : Codec) where
  unfoldable pub generate_admin_token : ℕ → Text → Text
  generate_admin_token now content =
      let payload = c.encode (c.to_json (payload_for now content)) in
      payload ++ (b'.' ∷ c.sign payload)

  -- What stands in a token whose signature is right.
  unfoldable pub read_admin_token : Text → Text → Result TokenError AdminTokenPayload
  unfolding same_text
  read_admin_token payload sig = do
    guard (same_text sig (c.sign payload)) invalid_signature
    json ← ok_or undecodable (c.decode payload)
    ok_or unreadable (c.from_json json)

  unfoldable pub verify_admin_token : ℕ → Text → Result TokenError AdminTokenPayload
  unfolding split_once read_admin_token
  verify_admin_token now token = do
    (payload, sig) ← ok_or invalid_format (split_once b'.' token)
    p ← read_admin_token payload sig
    guard (not (is_past now p.exp)) expired
    ok p
