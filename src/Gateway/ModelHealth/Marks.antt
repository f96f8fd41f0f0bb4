-- ===== src/Gateway/ModelHealth/Marks.antt =====
-- src/gateway/model_health.rs: the mark of one model.
use aqua_rust.Common.{
  ℕ, String, not, Option, none, some, List, [], ◌∷◌, lookup, retain, is_empty, if◌then◌else◌,
  string_discrete, ite, ◌≡◌, refl, ap, sym, ◌∙◌, arith, Option-cases, Bool-cases, inl, inr,
  Distinct, insert-Distinct, remove-Distinct, lookup-insert, lookup-remove, lookup-retain-some,
  lookup-retain-none, lookup-retain_dropped,
}
use aqua_rust.Gateway.Floats.{Floats}
use aqua_rust.Gateway.ModelHealth.{
  Monitor, Row, has_failed, has_recovered, is_young, judge, judge_all, refresh,
}

-- A mark that is six hours old is dropped.
abbrev pub if_young : ℕ → Option ℕ → Option ℕ
if_young now none = none
if_young now (some t) = if is_young now "" t then some t else none

module _ ⦃f : Floats⦄ where
  -- What a row makes of the mark of its model.
  abbrev pub judged : ℕ → Row → Option ℕ → Option ℕ
  judged now r none = if has_failed r then some now else none
  judged now r (some t) = if has_failed r then some t else if has_recovered r then none else some t

  -- The mark of one model by all rows.
  abbrev pub judged_by : ℕ → String → List Row → Option ℕ → Option ℕ
  judged_by now model [] o = o
  judged_by now model (r ∷ rs) o =
      judged_by now model rs (ite (string_discrete r.model model) (judged now r o) o)

  lookup-judge :
      (now : ℕ) (model : String) (r : Row) (m : Monitor)
      → lookup model (judge now r m)
        ≡ ite (string_discrete r.model model) (judged now r (lookup model m)) (lookup model m)
  unfolding judge
  lookup-judge now model r m =
      ground (arith, lookup-insert r.model model now m, lookup-remove r.model model m)

  judge-Distinct : (now : ℕ) (r : Row) (m : Monitor) → Distinct m → Distinct (judge now r m)
  unfolding judge
  judge-Distinct now r m d =
      ground (arith, insert-Distinct r.model now m d, remove-Distinct r.model m d)

  lookup-judge_all :
      (now : ℕ) (model : String) (rows : List Row) (m : Monitor)
      → lookup model (judge_all now rows m) ≡ judged_by now model rows (lookup model m)
  unfolding judge_all
  lookup-judge_all now model [] m = refl
  lookup-judge_all now model (r ∷ rs) m =
      lookup-judge_all now model rs (judge now r m)
      ∙ ap (judged_by now model rs) (lookup-judge now model r m)

  judge_all-Distinct :
      (now : ℕ) (rows : List Row) (m : Monitor) → Distinct m → Distinct (judge_all now rows m)
  unfolding judge_all
  judge_all-Distinct now [] m d = d
  judge_all-Distinct now (r ∷ rs) m d =
      judge_all-Distinct now rs (judge now r m) (judge-Distinct now r m d)

  lookup-young :
      (now : ℕ) (model : String) (m : Monitor)
      → Distinct m
      → lookup model (if not (is_empty m) then retain (is_young now) m else m)
        ≡ if_young now (lookup model m)
  lookup-young now model [] d = unfold lookup in refl
  lookup-young now model (e ∷ m) d = elim (Option-cases (lookup model (e ∷ m))) [
    | inl n ↦ lookup-retain-none (is_young now) model (e ∷ m) n ∙ ap (if_young now) (sym n)
    | inr (t, s) ↦ elim (Bool-cases (is_young now model t)) [
      | inl y ↦
          lookup-retain-some (is_young now) model t (e ∷ m) s y
          ∙ ground (arith, y)
          ∙ ap (if_young now) (sym s)
      | inr y ↦
          lookup-retain_dropped (is_young now) model t (e ∷ m) d s y
          ∙ ground (arith, y)
          ∙ ap (if_young now) (sym s)
    ]
  ]

  -- The mark of a model after a refresh is its mark before, as the rows of that model judge it, one
  -- after the other, and dropped once it is six hours old; the other models' rows do not bear on it.
  -- No model is marked twice beforehand.
  pub refresh_marks :
      (now : ℕ) (model : String) (rows : List Row) (m : Monitor)
      → Distinct m
      → lookup model (refresh now rows m) ≡ if_young now (judged_by now model rows (lookup model m))
  unfolding refresh
  refresh_marks now model rows m d =
      lookup-young now model (judge_all now rows m) (judge_all-Distinct now rows m d)
      ∙ ap (if_young now) (lookup-judge_all now model rows m)
