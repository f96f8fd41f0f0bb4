-- ===== src/Security/AdminToken/Tests.antt =====
-- Runs over a codec that adds 100 to each byte.
use aqua_rust.Common.{
  zero, suc, ◌+◌, ◌-◌, Option, none, some, [], ◌∷◌, ok, err, ℤ, pos, negsuc, ◌≡◌, ◌↔◌, refl, ap,
  ◌∙◌, arith,
}
use aqua_rust.Gateway.Signing.{Text, same_text}
use aqua_rust.Gateway.Signing.RoundTrip.{NoDot}
use aqua_rust.Security.AdminToken.{
  AdminTokenPayload, Codec, generate_admin_token, verify_admin_token, read_admin_token, split_once,
  expired, payload_for, invalid_signature,
}
use aqua_rust.Security.AdminToken.Accepts.{IsGood, admin_token_round_trip, verify_admin_token_iff}

abbrev up : Text → Text
up [] = []
up (c ∷ s) = (c + 100) ∷ up s

abbrev down : Text → Text
down [] = []
down (c ∷ s) = (c - 100) ∷ down s

down-up : (s : Text) → down (up s) ≡ s
down-up [] = refl
down-up (c ∷ s) =
    let same : c + 100 - 100 ≡ c = omega arith in
    ap (λ d. d ∷ down (up s)) same ∙ ap (λ t. c ∷ t) (down-up s)

up-NoDot : (s : Text) → NoDot (up s)
up-NoDot [] = tt
up-NoDot (c ∷ s) = (ground arith, up-NoDot s)

abbrev printed : ℤ → Text → Text
printed (pos n) s = 0 ∷ (n ∷ s)
printed (negsuc n) s = 1 ∷ (n ∷ s)

abbrev parsed : Text → Option AdminTokenPayload
parsed (zero ∷ (n ∷ s)) = some (record { exp = pos n; content = s })
parsed (suc k ∷ (n ∷ s)) = some (record { exp = negsuc n; content = s })
parsed s = none

parsed-printed : (t : ℤ) (s : Text) → parsed (printed t s) ≡ some (record { exp = t; content = s })
parsed-printed (pos n) s = refl
parsed-printed (negsuc n) s = refl

abbrev codec : Codec
codec = record {
  sign = λ s. b'n' ∷ [];
  encode = up;
  decode = λ s. some (down s);
  to_json = λ p. printed p.exp p.content;
  from_json = parsed;
}

admin_token_round_trip_example :
    verify_admin_token codec 30000 (generate_admin_token codec 10 (b'a' ∷ [])) ≡ err expired
admin_token_round_trip_example =
    admin_token_round_trip codec 10 30000 (b'a' ∷ []) (λ s. ap some (down-up s))
      (λ p. parsed-printed p.exp p.content) up-NoDot

accepted :
    verify_admin_token codec 28810 (generate_admin_token codec 10 (b'a' ∷ []))
    ≡ ok (payload_for 10 (b'a' ∷ []))
unfolding verify_admin_token generate_admin_token read_admin_token split_once same_text
accepted = refl

unsigned : verify_admin_token codec 10 (b'x' ∷ (b'.' ∷ (b'm' ∷ []))) ≡ err invalid_signature
unfolding verify_admin_token read_admin_token split_once same_text
unsigned = refl

verify_admin_token_iff_example :
    (verify_admin_token codec 20 (generate_admin_token codec 10 []) ≡ ok (payload_for 10 []))
    ↔ IsGood codec 20 (generate_admin_token codec 10 []) (payload_for 10 [])
verify_admin_token_iff_example =
    verify_admin_token_iff codec 20 (generate_admin_token codec 10 []) (payload_for 10 [])
