-- ===== src/Gateway/Admission/Lines.antt =====
-- src/gateway/handler/public.rs: the stages of an admission, and who gets a line.
use aqua_rust.Common.{
  ℕ, String, true, none, some, List, ok, >>=-eq-ok, ok-eq-ok, unwrap_or, ◌≡◌, ap, ◌∙◌, arith, subst,
  Option-cases, inl, inr, ◌⊎◌,
}
use aqua_rust.Common.Json.{Value}
use aqua_rust.Gateway.Admission.{
  Admitted, Named, admit, check_risk, key_line, line_of, name_model, read_body, throttle, who,
}
use aqua_rust.Gateway.Admission.Surroundings.{
  Client, Limits, Site, is_line_owner, is_super_whitelisted, line_scope_for_user,
}

module _ (s : Site) (l : Limits) (bytes : List ℕ) (api_key ip ua : String) where
  abbrev pub Stages : Admitted → Type 0
  Stages a =
      ((body : Value) × (read_body s bytes ≡ ok body) × (name_model s body ≡ ok a.named))
      × (who s api_key ≡ ok a.client)
      × (line_of s a.named a.client ≡ ok a.line)
      × (check_risk s a.named a.client ip a.line ≡ ok tt)
      × (throttle s l a.named a.client ua ≡ ok a.waits)

  pub admit-Stages : (a : Admitted) → admit s l bytes api_key ip ua ≡ ok a → Stages a
  unfolding admit
  admit-Stages a h =
      let (body, b, h₁) = >>=-eq-ok (read_body s bytes) _ h in
      let (n, m, h₂) = >>=-eq-ok (name_model s body) _ h₁ in
      let (c, w, h₃) = >>=-eq-ok (who s api_key) _ h₂ in
      let (line, k, h₄) = >>=-eq-ok (line_of s n c) _ h₃ in
      let (u, r, h₅) = >>=-eq-ok (check_risk s n c ip line) _ h₄ in
      let (waits, t, h₆) = >>=-eq-ok (throttle s l n c ua) _ h₅ in
      subst Stages (ok-eq-ok h₆) ((body, b, m), w, k, r, t)

module _ (s : Site) (n : Named) (c : Client) where
  -- Who may use a line: the owner of the prefix of the model's name, or a user of the first rank by a
  -- key for lines.
  abbrev pub Authorized : String → Type 0
  Authorized scope =
      ((s.line_prefix n.model_name ≡ some scope) × (is_line_owner s scope c.user_id ≡ true))
      ⊎ ((s.line_prefix n.model_name ≡ none)
          × (c.is_line_key ≡ true)
          × (is_super_whitelisted s c.user_id ≡ true)
          × (scope ≡ unwrap_or (line_scope_for_user c.user_id s.line_owners) ""))

  line_of-Authorized :
      (scope : String)
      → line_of s n c ≡ ok (some scope)
      → (s.is_special n.corrected ≡ true) × Authorized scope
  unfolding line_of key_line
  line_of-Authorized scope h = elim (Option-cases (s.line_prefix n.model_name)) [
    | inr (prefix, p) ↦ ground (arith, p)
    | inl p ↦ ground (arith, p)
  ]

-- A request that is admitted to a line asks for a special model. Either its model stands behind the
-- prefix of that line and the user is the owner of it, or the model has no such prefix, the key is
-- one for lines, the user is of the first rank and the line is the first that is theirs, or none.
pub line-Authorized :
    (s : Site) (l : Limits) (bytes : List ℕ) (api_key ip ua : String) (a : Admitted)
    (scope : String)
    → admit s l bytes api_key ip ua ≡ ok a
    → a.line ≡ some scope
    → (s.is_special a.named.corrected ≡ true) × Authorized s a.named a.client scope
line-Authorized s l bytes api_key ip ua a scope h e =
    let (b, w, k, r, t) = admit-Stages s l bytes api_key ip ua a h in
    line_of-Authorized s a.named a.client scope (k ∙ ap ok e)
