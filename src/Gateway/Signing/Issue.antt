-- ===== src/Gateway/Signing/Issue.antt =====
-- src/gateway/signing.rs: how a token is made. The random number, the keyed hash and the encoding in
-- base64 are arguments.
use aqua_rust.Common.{ℕ, zero, suc, ◌+◌, ◌/◌, ◌%◌, [], ◌∷◌, ◌++◌, ltb, if◌then◌else◌}
use aqua_rust.Gateway.Signing.{Text}

-- The digits of a number in front of a text; as many turns as the number says are enough.
unfoldable pub push_digits : ℕ → ℕ → Text → Text
push_digits zero n s = (b'0' + n) ∷ s
push_digits (suc fuel) n s =
    let rest = push_digits fuel (n / 10) ((b'0' + n % 10) ∷ s) in
    if ltb n 10 then (b'0' + n) ∷ s else rest

-- `{}` of a number that is not below 0.
unfoldable pub decimal : ℕ → Text
unfolding push_digits
decimal n = push_digits n n []

abbrev pub hex_digit : ℕ → ℕ
hex_digit d = if ltb d 10 then b'0' + d else 87 + d

-- `{:016x}` of a u64 has 16 digits.
unfoldable pub hex_digits : ℕ → ℕ → Text → Text
hex_digits zero n s = s
hex_digits (suc k) n s = hex_digits k (n / 16) (hex_digit (n % 16) ∷ s)

abbrev pub payload_of : Text → ℕ → Text → Text
payload_of client_id now nonce = client_id ++ (b'.' ∷ (decimal now ++ (b'.' ∷ nonce)))

unfoldable pub generate_token : (Text → Text) → (Text → Text) → ℕ → ℕ → Text → Text
unfolding hex_digits decimal
generate_token sign encode now random client_id =
    let payload = encode (payload_of client_id now (hex_digits 16 random [])) in
    payload ++ (b'.' ∷ sign payload)
