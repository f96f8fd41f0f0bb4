-- ===== src/Gateway/Admission/Asked.antt =====
-- src/gateway/handler/public.rs: the model that the upstream is asked for.
use aqua_rust.Common.{
  String, true, Option, none, some, ok, unwrap_or, >>=-eq-ok, ok-eq-ok, subst, if◌then◌else◌,
  is_some, not, ◌&&◌, eq_iff, ◌≡◌, ◌≢◌, refl, ap, ◌∙◌, arith, Bool-cases, inl, inr,
}
use aqua_rust.Common.Json.{
  Value, bool, or_text, and_str, get, string, put, get-put, is_object, is_object-put,
}
use aqua_rust.Gateway.Admission.{
  Named, name_model, put_target, check_model, target_model, put_model, put_stream,
}
use aqua_rust.Gateway.Admission.Surroundings.{Site}
use text.Mathlib.Text.{◌==◌ as str_eq}

put_target-object :
    (o : Option String) (body : Value)
    → is_object body ≡ true
    → is_object (put_target o body) ≡ true
put_target-object none body h = h
put_target-object (some t) body h = is_object-put "model" (string t) body h

get-put_target :
    (o : Option String) (k model : String) (body : Value)
    → is_object body ≡ true
    → get k (put_target o (put "model" (string model) body))
      ≡ (if str_eq "model" k then some (string (unwrap_or o model)) else get k body)
get-put_target none k model body h = get-put "model" k (string model) body h
get-put_target (some t) k model body h =
    get-put "model" k (string t) _ (is_object-put "model" (string model) body h)
    ∙ ground (arith, eq_iff "model" k, get-put "model" k (string model) body h)

module _ (s : Site) where
  name_model-body :
      (body : Value) (n : Named)
      → name_model s body ≡ ok n
      → n.body ≡ put_stream s (put_model s n.corrected body)
  unfolding name_model
  name_model-body body n h =
      let model_name = or_text "" (and_str (get "model" body)) in
      let (u, x, h₁) = >>=-eq-ok (check_model s model_name (s.correct model_name)) _ h in
      subst (λ (n : Named). n.body ≡ put_stream s (put_model s n.corrected body)) (ok-eq-ok h₁) refl

  get-put_stream :
      (k : String) (body : Value)
      → is_object body ≡ true
      → k ≢ "stream"
      → get k (put_stream s body) ≡ get k body
  get-put_stream k body h d =
      elim (Bool-cases (s.force_stream && not (is_some (get "stream" body)))) [
        | inr e ↦ rw e refl
        | inl e ↦ rw e (get-put "stream" k (bool true) body h ∙ ground (arith, eq_iff "stream" k))
      ]

-- The body that goes on asks for the upstream's name of the corrected model, if there is one, and else
-- for the corrected model; every other field of it but `stream` is that of the request.
pub named_body :
    (s : Site) (body : Value) (n : Named) (k : String)
    → name_model s body ≡ ok n
    → is_object body ≡ true
    → k ≢ "stream"
    → get k n.body ≡ (
        if str_eq "model" k
        then some (string (unwrap_or (target_model s n.corrected) n.corrected))
        else get k body)
named_body s body n k h is_obj no_stream =
    let target = target_model s n.corrected in
    ap (get k) (name_model-body s body n h)
    ∙ get-put_stream s k _
        (put_target-object target _ (is_object-put "model" (string n.corrected) body is_obj))
        no_stream
    ∙ get-put_target target k n.corrected body is_obj
