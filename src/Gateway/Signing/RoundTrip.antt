-- ===== src/Gateway/Signing/RoundTrip.antt =====
-- src/gateway/signing.rs: a token that is made is accepted.
use aqua_rust.Common.{
  ℕ, zero, suc, ◌+◌, ◌*◌, ◌-◌, ◌/◌, ◌%◌, ◌≤◌, ◌<◌, true, false, Option, none, some, [], ◌∷◌, ◌++◌,
  Result, ok, err, pos, ◌≡◌, refl, ap, sym, ◌∙◌, arith, All, All-map, filter, Bool-cases, inl, inr,
  ltb, leb, ◌==◌,
}
use aqua_rust.Gateway.Signing.{
  Text, Claims, Nonces, SignError, admit, admit_nonce, constant_eq, undecodable, is_fresh, is_known,
  parse_claims, parse_digits, parse_i64, parse_unsigned, positive, read_payload, read_token,
  rsplit_once, split, verify_token, in_front, timed, sign_window_secs,
}
use aqua_rust.Gateway.Signing.Equal.{constant_eq_iff}
use aqua_rust.Gateway.Signing.Issue.{decimal, generate_token, hex_digits, payload_of, push_digits}

-- Printing and reading a number.
IsDigit : ℕ → Type 0
IsDigit c = (48 ≤ c) × (c ≤ 57)

push_digits-IsDigit :
    (fuel n : ℕ) (s : Text) → n ≤ fuel → All IsDigit s → All IsDigit (push_digits fuel n s)
unfolding push_digits IsDigit
push_digits-IsDigit zero n s l h = ((omega arith, omega arith), h)
push_digits-IsDigit (suc fuel) n s l h = elim (Bool-cases (ltb n 10)) [
  | inl e ↦ rw e ((omega arith, ground (arith, e)), h)
  | inr e ↦
      rw e (push_digits-IsDigit fuel (n / 10) _ (ground (arith, e)) ((omega arith, omega arith), h))
]

parse_digits-digit :
    (m d v : ℕ) (s : Text)
    → d < 10
    → m * 10 + d ≡ v
    → parse_digits m ((48 + d) ∷ s) ≡ parse_digits v s
unfolding parse_digits
parse_digits-digit m d v s l e =
    let low : leb 48 (48 + d) ≡ true = ground arith in
    let high : leb (48 + d) 57 ≡ true = ground arith in
    let value : m * 10 + (48 + d - 48) ≡ v = omega arith in
    rw (low, high) (ap (λ k. parse_digits k s) value)

parse_digits-push_digits :
    (fuel n : ℕ) (s : Text) → n ≤ fuel → parse_digits 0 (push_digits fuel n s) ≡ parse_digits n s
unfolding push_digits
parse_digits-push_digits zero n s l = parse_digits-digit 0 n n s (omega arith) (omega arith)
parse_digits-push_digits (suc fuel) n s l = elim (Bool-cases (ltb n 10)) [
  | inl e ↦ rw e (parse_digits-digit 0 n n s (ground (arith, e)) (omega arith))
  | inr e ↦ rw e (
      parse_digits-push_digits fuel (n / 10) _ (ground (arith, e))
      ∙ parse_digits-digit (n / 10) (n % 10) n s (omega arith) (omega arith))
]

-- A text of a digit and more.
push_digits-cons :
    (fuel n : ℕ) (s : Text)
    → n ≤ fuel
    → (c : ℕ) × (t : Text) × (push_digits fuel n s ≡ c ∷ t) × IsDigit c
unfolding push_digits IsDigit
push_digits-cons zero n s l = (48 + n, s, refl, (omega arith, omega arith))
push_digits-cons (suc fuel) n s l = elim (Bool-cases (ltb n 10)) [
  | inl e ↦ (48 + n, s, rw e refl, (omega arith, ground (arith, e)))
  | inr e ↦
      let (c, t, h, d) = push_digits-cons fuel (n / 10) ((48 + n % 10) ∷ s) (ground (arith, e)) in
      (c, t, rw e h, d)
]

parse_digits-nil : (n : ℕ) → parse_digits n [] ≡ some n
unfolding parse_digits
parse_digits-nil n = refl

parse_unsigned-digits :
    (bound c n : ℕ) (t : Text)
    → parse_digits 0 (c ∷ t) ≡ some n
    → n ≤ bound
    → parse_unsigned bound (c ∷ t) ≡ some n
unfolding parse_unsigned
parse_unsigned-digits bound c n t e b = ground (arith, e)

parse_i64-digits :
    (c n : ℕ) (t : Text)
    → IsDigit c
    → parse_digits 0 (c ∷ t) ≡ some n
    → n ≤ 9223372036854775807
    → parse_i64 (c ∷ t) ≡ some (pos n)
unfolding parse_i64 IsDigit
parse_i64-digits c n t (l, h) e b =
    let no_minus : (c == 45) ≡ false = ground arith in
    let no_plus : (c == 43) ≡ false = ground arith in
    rw (no_minus, no_plus) (ap positive (parse_unsigned-digits _ c n t e b))

parse_i64-decimal : (n : ℕ) → n ≤ 9223372036854775807 → parse_i64 (decimal n) ≡ some (pos n)
unfolding decimal
parse_i64-decimal n b =
    let (c, t, h, d) = push_digits-cons n n [] (omega arith) in
    ap parse_i64 h
    ∙ parse_i64-digits c n t d
        (ap (parse_digits 0) (sym h)
          ∙ parse_digits-push_digits n n [] (omega arith)
          ∙ parse_digits-nil n)
        b

-- A text without a dot.
abbrev pub NoDot : Text → Type 0
NoDot s = All (λ c. (c == b'.') ≡ false) s

split-NoDot : (a b : Text) → NoDot a → split b'.' (a ++ (b'.' ∷ b)) ≡ a ∷ split b'.' b
unfolding split
split-NoDot [] b h = refl
split-NoDot (x ∷ a) b (d, h) = rw d (ap (in_front x) (split-NoDot a b h))

split_last : (a : Text) → NoDot a → split b'.' a ≡ a ∷ []
unfolding split
split_last [] h = refl
split_last (x ∷ a) (d, h) = rw d (ap (in_front x) (split_last a h))

rsplit_once-NoDot : (a : Text) → NoDot a → rsplit_once b'.' a ≡ none
unfolding rsplit_once
rsplit_once-NoDot [] h = refl
rsplit_once-NoDot (x ∷ a) (d, h) = rw (rsplit_once-NoDot a h, d) refl

rsplit_once-append : (a b : Text) → NoDot b → rsplit_once b'.' (a ++ (b'.' ∷ b)) ≡ some (a, b)
unfolding rsplit_once
rsplit_once-append [] b h = rw (rsplit_once-NoDot b h) refl
rsplit_once-append (x ∷ a) b h = rw (rsplit_once-append a b h) refl

decimal-NoDot : (n : ℕ) → NoDot (decimal n)
unfolding decimal IsDigit
decimal-NoDot n =
    All-map IsDigit (λ c. (c == b'.') ≡ false) _ (λ c d. ground (arith, d))
      (push_digits-IsDigit n n [] (omega arith) tt)

hex_digits-NoDot : (k n : ℕ) (s : Text) → NoDot s → NoDot (hex_digits k n s)
unfolding hex_digits
hex_digits-NoDot zero n s h = h
hex_digits-NoDot (suc k) n s h = hex_digits-NoDot k (n / 16) _ (ground arith, h)

module _ (sign : Text → Text) (decode : Text → Option Text) where
  read_token-signed :
      (payload : Text)
      → NoDot (sign payload)
      → read_token sign decode (payload ++ (b'.' ∷ sign payload)) ≡ read_payload sign decode payload
  unfolding read_token
  read_token-signed payload h =
      let signed : constant_eq (sign payload) (sign payload) ≡ true =
        (constant_eq_iff (sign payload) (sign payload)).1 refl in
      ground (arith, rsplit_once-append payload (sign payload) h, signed)

  read_payload-claims :
      (payload client_id nonce : Text) (now : ℕ)
      → decode payload ≡ some (payload_of client_id now nonce)
      → NoDot client_id
      → NoDot nonce
      → now ≤ 9223372036854775807
      → read_payload sign decode payload
        ≡ ok (record { client_id = client_id; ts = pos now; nonce = nonce })
  unfolding read_payload parse_claims
  read_payload-claims payload client_id nonce now d h k b =
      let pieces : split b'.' (payload_of client_id now nonce)
          ≡ client_id ∷ (decimal now ∷ (nonce ∷ [])) =
        split-NoDot client_id _ h
        ∙ ap (λ ps. client_id ∷ ps)
            (split-NoDot (decimal now) nonce (decimal-NoDot now)
              ∙ ap (λ ps. decimal now ∷ ps) (split_last nonce k)) in
      ap
        (λ o. elim o as (λ x. Result SignError Claims) [
          | none ↦ err undecodable
          | some text ↦ parse_claims (split b'.' text)
        ])
        d
      ∙ ap parse_claims pieces
      ∙ ap (timed client_id nonce) (parse_i64-decimal now b)

admit-fresh :
    (now later : ℕ) (client_id nonce : Text) (es : Nonces)
    → now ≤ later + sign_window_secs
    → later ≤ now + sign_window_secs
    → is_known nonce (filter (is_fresh later) es) ≡ false
    → (admit later es (ok (record { client_id = client_id; ts = pos now; nonce = nonce }))).1
      ≡ ok client_id
unfolding admit admit_nonce
admit-fresh now later client_id nonce es l h k = ground (arith, k)

-- A token that is made for a client without a dot in its name is accepted, and gives that client, by
-- every clock that is at most 300 seconds ahead of the clock of its making or behind it, unless its
-- nonce is among those that are kept. The encoding is one that the decoding undoes, and no signature
-- has a dot.
pub token_round_trip :
    (sign encode : Text → Text) (decode : Text → Option Text) (now later random : ℕ)
    (client_id : Text) (es : Nonces)
    → ((s : Text) → decode (encode s) ≡ some s)
    → ((s : Text) → NoDot (sign s))
    → NoDot client_id
    → now ≤ 9223372036854775807
    → now ≤ later + sign_window_secs
    → later ≤ now + sign_window_secs
    → is_known (hex_digits 16 random []) (filter (is_fresh later) es) ≡ false
    → (verify_token sign decode later (generate_token sign encode now random client_id) es).1
      ≡ ok client_id
unfolding verify_token generate_token
token_round_trip sign encode decode now later random client_id es d g h b l k fresh =
    let nonce = hex_digits 16 random [] in
    let payload = encode (payload_of client_id now nonce) in
    ap (λ r. (admit later es r).1)
      (read_token-signed sign decode payload (g payload)
        ∙ read_payload-claims sign decode payload client_id nonce now (d _) h
            (hex_digits-NoDot 16 random [] tt) b)
    ∙ admit-fresh now later client_id nonce es l k fresh
