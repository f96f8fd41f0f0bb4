-- ===== src/Gateway/Stream/Passed.antt =====
-- src/gateway/handler/public.rs: the loop of `stream_response` over the lines of an upstream. A turn
-- meets a line, the end or a failure of the reader, or the timeout.
use aqua_rust.Common.{
  ℕ, String, Bool, true, false, Option, none, some, List, [], ◌∷◌, ◌++◌, if◌then◌else◌,
  str_contains, ◌||◌, eq_iff, ◌≡◌, ap, ◌∙◌, arith, Bool-cases, inl, inr, sym,
}
use aqua_rust.Common.Texts.{strip_prefix, trim_end}
use aqua_rust.Gateway.Stream.{Input, line, tick, eof, failure}
use text.Mathlib.Text.{◌==◌ as str_eq}
use mathlib.Core.List.{append_assoc, append-nil}

-- `parse` stands for `parse_usage_line`.
pub record Passing (U : Type 0) : Type 0 where
  pub usage : Option U
  pub ttft : Option ℕ
  pub completed : Bool
  pub out : List String

module _ {U : Type 0} (parse : String → Option U) where
  abbrev pub pass_chunk : ℕ → String → Passing U → Passing U
  pass_chunk now chunk p = record p {
    ttft = elim p.ttft [ none ↦ some now | some t ↦ some t ];
    out = p.out ++ (chunk ∷ []);
    usage = if str_contains chunk "\"usage\"" then parse chunk else p.usage;
  }

  -- A line, by its data if it has any; `rest` is the rest of the loop.
  abbrev pub pass_line : ℕ → Option String → (Passing U → Passing U) → Passing U → Passing U
  pass_line now none rest p = rest p
  pass_line now (some chunk) rest p =
      if str_eq (trim_end chunk) "[DONE]"
      then record p { completed = true; out = p.out ++ ("[DONE]" ∷ []) }
      else rest (pass_chunk now (trim_end chunk) p)

  -- The loop: a tick is the timeout, which breaks it, as do the end and a failure.
  unfoldable pub pass_lines : Passing U → List Input → Passing U
  pass_lines p [] = p
  pass_lines p (tick now ∷ is) = p
  pass_lines p (eof ∷ is) = p
  pass_lines p (failure ∷ is) = p
  pass_lines p (line now s ∷ is) = pass_line now (strip_prefix "data: " s) (λ q. pass_lines q is) p

abbrev pub passing_start : {U : Type 0} → Passing U
passing_start = record { usage = none; ttft = none; completed = false; out = [] }

abbrev pub with_data : Option String → List String → List String
with_data none ds = ds
with_data (some chunk) ds = trim_end chunk ∷ ds

-- The data of the lines in front of the first that is no line, trimmed.
abbrev pub data_before_stop : List Input → List String
data_before_stop [] = []
data_before_stop (tick now ∷ is) = []
data_before_stop (eof ∷ is) = []
data_before_stop (failure ∷ is) = []
data_before_stop (line now s ∷ is) = with_data (strip_prefix "data: " s) (data_before_stop is)

-- What stands in front of the first done mark, with it.
abbrev pub up_to_done : List String → List String
up_to_done [] = []
up_to_done (d ∷ ds) = if str_eq d "[DONE]" then d ∷ [] else d ∷ up_to_done ds

abbrev pub has_done : List String → Bool
has_done [] = false
has_done (d ∷ ds) = if str_eq d "[DONE]" then true else has_done ds

module _ {U : Type 0} (parse : String → Option U) where
  Passes : Passing U → Passing U → List String → Type 0
  Passes p q ds = (q.out ≡ p.out ++ up_to_done ds) × (q.completed ≡ (p.completed || has_done ds))

  Passes-line :
      (now : ℕ) (o : Option String) (rest : Passing U → Passing U) (p : Passing U)
      (ds : List String)
      → ((q : Passing U) → Passes q (rest q) ds)
      → Passes p (pass_line parse now o rest p) (with_data o ds)
  unfolding Passes
  Passes-line now none rest p ds h = h p
  Passes-line now (some chunk) rest p ds h = elim (Bool-cases (str_eq (trim_end chunk) "[DONE]")) [
    | inl e ↦
        let is_done = (eq_iff (trim_end chunk) "[DONE]").0 e in
        rw e (ap (λ d. p.out ++ (d ∷ [])) (sym is_done), ground arith)
    | inr e ↦
        let q = pass_chunk parse now (trim_end chunk) p in
        rw e (((h q).0 ∙ append_assoc p.out (trim_end chunk ∷ []) (up_to_done ds)), (h q).1)
  ]

  Passes-lines :
      (p : Passing U) (is : List Input) → Passes p (pass_lines parse p is) (data_before_stop is)
  unfolding pass_lines Passes
  Passes-lines p [] = (sym (append-nil p.out), ground arith)
  Passes-lines p (tick now ∷ is) = (sym (append-nil p.out), ground arith)
  Passes-lines p (eof ∷ is) = (sym (append-nil p.out), ground arith)
  Passes-lines p (failure ∷ is) = (sym (append-nil p.out), ground arith)
  Passes-lines p (line now s ∷ is) =
      Passes-line now (strip_prefix "data: " s) (λ q. pass_lines parse q is) p (data_before_stop is)
        (λ q. Passes-lines q is)

  -- A stream passes on the data of its lines, each without the white space behind it, in order, up to
  -- the first done mark and with it; what stands behind a timeout, an end or a failure is not passed
  -- on. It counts as completed exactly if the done mark is among what is passed on.
  pub stream_passes :
      (is : List Input)
      → ((pass_lines parse passing_start is).out ≡ up_to_done (data_before_stop is))
        × ((pass_lines parse passing_start is).completed ≡ has_done (data_before_stop is))
  unfolding Passes
  stream_passes is = Passes-lines passing_start is
