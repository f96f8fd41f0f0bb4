-- ===== src/Security/AdminToken/Accepts.antt =====
-- src/security/admin_token.rs: which tokens are accepted.
use aqua_rust.Common.{
  ℕ, ◌+◌, true, false, not, Option, none, some, [], ◌∷◌, ◌++◌, ok, err, guard, ltb, ◌==◌,
  if◌then◌else◌, ◌≡◌, ◌↔◌, refl, ap, ◌∙◌, arith, Option-cases, Bool-cases, inl, inr, >>=-eq-ok,
  ok-eq-ok, guard-eq-ok, subst,
}
use mathlib.Core.Option.{some_inj}
use aqua_rust.Gateway.Signing.{Text, same_text}
use aqua_rust.Gateway.Signing.RoundTrip.{NoDot}
use aqua_rust.Security.AdminToken.{
  AdminTokenPayload, Codec, TokenError, generate_admin_token, verify_admin_token, read_admin_token,
  split_once, is_past, payload_for, ok_or, invalid_format, invalid_signature, undecodable,
  unreadable, expired, admin_token_ttl_secs,
}

same_text_iff : (a b : Text) → (same_text a b ≡ true) ↔ (a ≡ b)
unfolding same_text
same_text_iff [] [] = ((λ e. refl), λ e. refl)
same_text_iff [] (y ∷ b) = ((λ e. cc), λ e. absurd (cc))
same_text_iff (x ∷ a) [] = ((λ e. cc), λ e. absurd (cc))
same_text_iff (x ∷ a) (y ∷ b) =
    ((λ e. ground (arith, same_text_iff a b)), λ e. ground (arith, same_text_iff a b))

split_once-append : (a b : Text) → NoDot a → split_once b'.' (a ++ (b'.' ∷ b)) ≡ some (a, b)
unfolding split_once
split_once-append [] b h = refl
split_once-append (x ∷ a) b (d, h) = rw (d, split_once-append a b h) refl

-- The text is cut at its first dot.
IsCut : Text → Text × Text → Type 0
IsCut s (a, b) = (s ≡ a ++ (b'.' ∷ b)) × NoDot a

split_once-IsCut : (s : Text) (z : Text × Text) → split_once b'.' s ≡ some z → IsCut s z
unfolding split_once IsCut
split_once-IsCut [] z e = absurd (cc)
split_once-IsCut (x ∷ s) z e = elim (Bool-cases (x == b'.')) [
  | inl d ↦
      let whole : Path (Option (Text × Text)) (some ([], s)) (some z) = rw d at e in
      let dot : x ≡ b'.' = ground (arith, d) in
      subst (IsCut (x ∷ s)) (some_inj.0 whole) (ap (λ c. c ∷ s) dot, tt)
  | inr d ↦ elim (Option-cases (split_once b'.' s)) [
    | inl n ↦ absurd (ground (arith, d, n))
    | inr ((p, q), m) ↦
        let whole : Path (Option (Text × Text)) (some (x ∷ p, q)) (some z) = rw (d, m) at e in
        let (h, k) = split_once-IsCut s (p, q) m in
        subst (IsCut (x ∷ s)) (some_inj.0 whole) (ap (λ t. x ∷ t) h, (d, k))
  ]
]

module _ (c : Codec) (now : ℕ) where
  -- The token is a payload without a dot and its signature; the payload is one of `p`, whose time has
  -- not passed.
  abbrev pub IsGood : Text → AdminTokenPayload → Type 0
  IsGood token p =
      (payload json : Text) × (token ≡ payload ++ (b'.' ∷ c.sign payload))
      × NoDot payload
      × (c.decode payload ≡ some json)
      × (c.from_json json ≡ some p)
      × (is_past now p.exp ≡ false)

  ok_or-eq-ok : {A : Type 0} (e : TokenError) (o : Option A) (a : A) → ok_or e o ≡ ok a → o ≡ some a
  ok_or-eq-ok e none a h = cc
  ok_or-eq-ok e (some b) a h = ap some (ok-eq-ok h)

  verify_admin_token-IsGood :
      (token : Text) (p : AdminTokenPayload)
      → verify_admin_token c now token ≡ ok p
      → IsGood token p
  unfolding verify_admin_token read_admin_token IsCut
  verify_admin_token-IsGood token p e =
      let (cut, h₀, e₁) = >>=-eq-ok (ok_or invalid_format (split_once b'.' token)) _ e in
      let (q, h₁, e₂) = >>=-eq-ok (read_admin_token c cut.0 cut.1) _ e₁ in
      let (u, h₂, e₃) = >>=-eq-ok (guard (same_text cut.1 (c.sign cut.0)) invalid_signature) _ h₁ in
      let (json, h₃, h₄) = >>=-eq-ok (ok_or undecodable (c.decode cut.0)) _ e₃ in
      let (v, h₅, h₆) = >>=-eq-ok (guard (not (is_past now q.exp)) expired) _ e₂ in
      let (whole, dots) = split_once-IsCut token cut (ok_or-eq-ok invalid_format _ cut h₀) in
      let signed : cut.1 ≡ c.sign cut.0 =
        (same_text_iff cut.1 (c.sign cut.0)).0 (guard-eq-ok _ invalid_signature h₂) in
      let good : IsGood token q = (
        cut.0,
        json,
        whole ∙ ap (λ t. cut.0 ++ (b'.' ∷ t)) signed,
        dots,
        ok_or-eq-ok undecodable _ json h₃,
        ok_or-eq-ok unreadable _ q h₄,
        ground (arith, guard-eq-ok (not (is_past now q.exp)) expired h₅),
      ) in
      subst (IsGood token) (ok-eq-ok h₆) good

  IsGood-verify_admin_token :
      (token : Text) (p : AdminTokenPayload)
      → IsGood token p
      → verify_admin_token c now token ≡ ok p
  unfolding verify_admin_token read_admin_token
  IsGood-verify_admin_token token p (payload, json, whole, dots, d, f, past) =
      let signed : same_text (c.sign payload) (c.sign payload) ≡ true =
        (same_text_iff (c.sign payload) (c.sign payload)).1 refl in
      let cut : split_once b'.' token ≡ some (payload, c.sign payload) =
        ap (split_once b'.') whole ∙ split_once-append payload (c.sign payload) dots in
      ground (arith, signed, cut, d, f, past)

-- A token is accepted, and gives a payload, exactly if it is an encoded text without a dot and the
-- signature of that text, the text decodes to the JSON of the payload, and the time of the payload
-- has not passed.
pub verify_admin_token_iff :
    (c : Codec) (now : ℕ) (token : Text) (p : AdminTokenPayload)
    → (verify_admin_token c now token ≡ ok p) ↔ IsGood c now token p
verify_admin_token_iff c now token p =
    (verify_admin_token-IsGood c now token p, IsGood-verify_admin_token c now token p)

module _ (c : Codec) where
  -- What is made by the clock of `now` is read by the clock of `later`.
  read_generated :
      (now : ℕ) (content : Text)
      → ((s : Text) → c.decode (c.encode s) ≡ some s)
      → ((p : AdminTokenPayload) → c.from_json (c.to_json p) ≡ some p)
      → read_admin_token c
          (c.encode (c.to_json (payload_for now content)))
          (c.sign (c.encode (c.to_json (payload_for now content))))
        ≡ ok (payload_for now content)
  unfolding read_admin_token
  read_generated now content d f =
      let p = payload_for now content in
      let payload = c.encode (c.to_json p) in
      let signed : same_text (c.sign payload) (c.sign payload) ≡ true =
        (same_text_iff (c.sign payload) (c.sign payload)).1 refl in
      ground (arith, signed, d (c.to_json p), f p)

-- A token is read as what it was made for until eight hours have passed since its making, and is
-- refused as expired afterwards. Decoding undoes the encoding, whose texts have no dot, and parsing
-- undoes the printing.
pub admin_token_round_trip :
    (c : Codec) (now later : ℕ) (content : Text)
    → ((s : Text) → c.decode (c.encode s) ≡ some s)
    → ((p : AdminTokenPayload) → c.from_json (c.to_json p) ≡ some p)
    → ((s : Text) → NoDot (c.encode s))
    → verify_admin_token c later (generate_admin_token c now content) ≡ (
        if ltb (now + admin_token_ttl_secs) later
        then err expired
        else ok (payload_for now content))
unfolding verify_admin_token generate_admin_token
admin_token_round_trip c now later content d f g =
    let payload = c.encode (c.to_json (payload_for now content)) in
    ground
      (arith, split_once-append payload (c.sign payload) (g _), read_generated c now content d f)
