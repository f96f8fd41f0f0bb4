-- ===== src/Gateway/Signing/Tests.antt =====
-- The check of signed tokens, with a hash and a decoding that are constant.
use aqua_rust.Common.{◌≡◌, ◌≢◌, refl, Option, some, [], ◌∷◌, ok, err, arith}
use aqua_rust.Gateway.Signing.{
  Text, verify_token, read_token, read_payload, rsplit_once, split, parse_claims, parse_i64,
  parse_unsigned, parse_digits, constant_eq, differences, admit, admit_nonce, evict, bad_ts,
}
use aqua_rust.Gateway.Signing.Issue.{generate_token, hex_digits, decimal}
use aqua_rust.Gateway.Signing.RoundTrip.{token_round_trip}
use aqua_rust.Gateway.Signing.Replay.{calls, no_replay}

-- A payload and its hash, the text after the last dot.
abbrev token : Text
token = b'c' ∷ b'.' ∷ b'9' ∷ b'.' ∷ b'n' ∷ []

abbrev sign_n : Text → Text
sign_n p = b'n' ∷ []

abbrev decode_claims : Text → Option Text
decode_claims p = some (b'c' ∷ b'.' ∷ b'9' ∷ b'.' ∷ b'n' ∷ [])

first_passes : (verify_token sign_n decode_claims 10 token []).1 ≡ ok (b'c' ∷ [])
unfolding verify_token read_token read_payload rsplit_once split parse_claims parse_i64
    parse_unsigned parse_digits constant_eq differences admit admit_nonce evict
first_passes = refl

no_replay_example :
    (verify_token sign_n decode_claims 200 token (
      calls sign_n decode_claims
        (record { at = 20; token = [] } ∷ [])
        (verify_token sign_n decode_claims 10 token []).0)).1
    ≢ ok (b'c' ∷ [])
no_replay_example =
    no_replay sign_n decode_claims token (b'c' ∷ []) (b'c' ∷ []) 10 200
      (record { at = 20; token = [] } ∷ []) [] first_passes (omega arith) (omega arith, tt)
      (omega arith)

-- An encoding that is the identity, a hash that is the letter n.
token_round_trip_example :
    (verify_token sign_n (λ s. some s) 130 (generate_token sign_n (λ s. s) 100 7 (b'c' ∷ [])) []).1
    ≡ ok (b'c' ∷ [])
token_round_trip_example =
    token_round_trip sign_n (λ s. s) (λ s. some s) 100 130 7 (b'c' ∷ []) [] (λ s. refl)
      (λ s. (refl, tt)) (refl, tt) (omega arith) (omega arith) (omega arith) refl

-- A dot in the name of a client moves the pieces of the payload.
dotted_client :
    (verify_token sign_n
      (λ s. some s)
      130
      (generate_token sign_n (λ s. s) 100 7 (b'c' ∷ (b'.' ∷ [])))
      []).1
    ≡ err bad_ts
unfolding verify_token read_token read_payload rsplit_once split parse_claims parse_i64
    parse_unsigned parse_digits constant_eq differences admit admit_nonce evict generate_token
    hex_digits decimal
dotted_client = refl
