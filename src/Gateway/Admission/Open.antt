-- ===== src/Gateway/Admission/Open.antt =====
-- src/gateway/handler/public.rs: which models, clients and addresses pass, and what is asked for.
use aqua_rust.Common.{
  ℕ, String, true, false, Option, List, ok, is_some, ◌||◌, ◌≡◌, arith, ◌⊎◌, Bool-cases, inl, inr,
}
use aqua_rust.Common.Json.{Value}
use aqua_rust.Gateway.Admission.{check_model, Admitted, Named, admit, check_risk, name_model, who}
use aqua_rust.Gateway.Admission.Surroundings.{Client, Limits, Site}
use aqua_rust.Gateway.Admission.Lines.{admit-Stages}

module _ (s : Site) where
  -- The model is one that is served.
  abbrev pub Served : Named → Type 0
  Served n =
      (s.in_catalog n.corrected ≡ true)
      × (s.is_deprecated n.corrected ≡ false)
      × ((is_some (s.line_prefix n.model_name) ≡ true) ⊎ (s.model_failed n.corrected ≡ false))

  name_model-Served : (body : Value) (n : Named) → name_model s body ≡ ok n → Served n
  unfolding name_model check_model
  name_model-Served body n h = ground arith

  who-authenticate :
      (api_key : String) (c : Client)
      → who s api_key ≡ ok c
      → s.authenticate (s.clean_api_key api_key) ≡ ok c
  unfolding who
  who-authenticate api_key c h = ground arith

  -- Neither the address nor the client is shut out, and the model is open to it.
  abbrev pub LetIn : Named → Client → String → Option String → Type 0
  LetIn n c ip line =
      ((s.is_special n.corrected ≡ false) ⊎ (is_some line || s.special_call_allowed ≡ true))
      × ((s.trusted_clients c.client_id || is_some line ≡ true)
          ⊎ ((s.ip_blocked ip ≡ false) × (s.banned c.client_id ≡ false)))

  check_risk-LetIn :
      (n : Named) (c : Client) (ip : String) (line : Option String)
      → check_risk s n c ip line ≡ ok tt
      → LetIn n c ip line
  unfolding check_risk
  check_risk-LetIn n c ip line h = (
    elim (Bool-cases (s.is_special n.corrected)) [ inl e ↦ inr (ground arith) | inr e ↦ inl e ],
    elim (Bool-cases (s.trusted_clients c.client_id || is_some line)) [
      | inl e ↦ inl e
      | inr e ↦ inr (ground arith, ground arith)
    ],
  )

-- A request that is admitted asks for a model of the catalogue that is not deprecated and, but for the
-- models behind the prefix of a line, not marked as failed. Its client is the one that the cleaned key
-- belongs to. Without a line, a special model has to be open to calls, and neither the address nor
-- the client of a client that is not trusted is shut out.
pub admitted_open :
    (s : Site) (l : Limits) (bytes : List ℕ) (api_key ip ua : String) (a : Admitted)
    → admit s l bytes api_key ip ua ≡ ok a
    → Served s a.named
      × (s.authenticate (s.clean_api_key api_key) ≡ ok a.client)
      × LetIn s a.named a.client ip a.line
admitted_open s l bytes api_key ip ua a h =
    let ((body, b, m), w, k, r, t) = admit-Stages s l bytes api_key ip ua a h in
    (
      name_model-Served s body a.named m,
      who-authenticate s api_key a.client w,
      check_risk-LetIn s a.named a.client ip a.line r,
    )
