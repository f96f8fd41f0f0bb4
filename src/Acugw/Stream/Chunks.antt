-- ===== src/Acugw/Stream/Chunks.antt =====
-- acugw/src/sse.rs: how the bytes of a stream are cut into chunks does not matter.
use aqua_rust.Common.{
  ℕ, String, false, Option, none, some, List, [], ◌∷◌, ◌++◌, map, Result, ok, ◌≡◌, refl, ap, sym,
  ◌∙◌, Bool-cases, inl, inr, ◌==◌,
}
use aqua_rust.Common.Texts.{trim}
use aqua_rust.Common.Json.{Value}
use aqua_rust.Acugw.Stream.{DsEvent}
use aqua_rust.Acugw.Stream.Lines.{
  Bytes, Parser, Run, cut_lines, in_front, on_line, parse, parse_from, run_lines, start, then_run,
}
use mathlib.Core.List.{append_assoc, append-nil}
use mathlib.Core.Path.{fun_ext}

-- The bytes of a stream.
abbrev pub concat : List Bytes → Bytes
concat [] = []
concat (c ∷ cs) = c ++ concat cs

-- Lines in front of lines.
abbrev behind : List Bytes → List Bytes × Bytes → List Bytes × Bytes
behind ls r = (ls ++ r.0, r.1)

in_front-behind :
    (c : ℕ) (b : Bytes) (r : List Bytes × Bytes)
    → (c == b'\n') ≡ false
    → in_front c (behind r.0 (cut_lines (r.1 ++ b)))
      ≡ behind (in_front c r).0 (cut_lines ((in_front c r).1 ++ b))
unfolding cut_lines
in_front-behind c b ([], rest) h = rw h refl
in_front-behind c b (l ∷ ls, rest) h = refl

cut_lines-append :
    (a b : Bytes) → cut_lines (a ++ b) ≡ behind (cut_lines a).0 (cut_lines ((cut_lines a).1 ++ b))
unfolding cut_lines
cut_lines-append [] b = refl
cut_lines-append (c ∷ a) b = elim (Bool-cases (c == b'\n')) [
  | inl e ↦ rw e (ap (λ r. ([] ∷ r.0, r.1)) (cut_lines-append a b))
  | inr e ↦ rw e (ap (in_front c) (cut_lines-append a b) ∙ in_front-behind c b (cut_lines a) e)
]

then_run_behind :
    (evs : List DsEvent) (r : Run) (g : Parser → Run)
    → then_run (r.0, evs ++ r.1) g ≡ ((then_run r g).0, evs ++ (then_run r g).1)
then_run_behind evs (none, more) g = refl
then_run_behind evs (some p, more) g = ap (λ zs. ((g p).0, zs)) (append_assoc evs more (g p).1)

then_run_assoc :
    (r : Run) (f g : Parser → Run) → then_run (then_run r f) g ≡ then_run r (λ p. then_run (f p) g)
then_run_assoc (none, evs) f g = refl
then_run_assoc (some p, evs) f g = then_run_behind evs (f p) g

module _ (decode : Bytes → String) (from_json : String → Option Value) where
  run_lines-append :
      (p : Parser) (ls ms : List Bytes)
      → run_lines decode from_json p (ls ++ ms)
        ≡ then_run (run_lines decode from_json p ls) (λ q. run_lines decode from_json q ms)
  unfolding run_lines
  run_lines-append p [] ms = refl
  run_lines-append p (l ∷ ls) ms =
      let first = on_line from_json p (trim (decode l)) in
      ap (then_run first) (fun_ext (λ q. run_lines-append q ls ms))
      ∙ sym (
          then_run_assoc first (λ q. run_lines decode from_json q ls)
            (λ q. run_lines decode from_json q ms))

  -- Two chunks are read as one.
  parse_from-merge :
      (buf : Bytes) (p : Parser) (a b : Bytes) (chunks : List (Result String Bytes))
      → parse_from decode from_json buf p (ok a ∷ (ok b ∷ chunks))
        ≡ parse_from decode from_json buf p (ok (a ++ b) ∷ chunks)
  unfolding parse_from
  parse_from-merge buf p a b chunks =
      let c = cut_lines (buf ++ a) in
      let d = cut_lines (c.1 ++ b) in
      let merged : cut_lines (buf ++ (a ++ b)) ≡ behind c.0 d =
        ap cut_lines (sym (append_assoc buf a b)) ∙ cut_lines-append (buf ++ a) b in
      rw (merged, run_lines-append p c.0 d.0)
        (sym (
          then_run_assoc (run_lines decode from_json p c.0) (λ q. run_lines decode from_json q d.0)
            (λ q. parse_from decode from_json d.1 q chunks)))

  parse_from-map-ok :
      (buf : Bytes) (p : Parser) (a : Bytes) (cs : List Bytes)
      → parse_from decode from_json buf p (ok a ∷ map ok cs)
        ≡ parse_from decode from_json buf p (ok (a ++ concat cs) ∷ [])
  parse_from-map-ok buf p a [] = rw (append-nil a) refl
  parse_from-map-ok buf p a (c ∷ cs) =
      parse_from-merge buf p a c (map ok cs)
      ∙ (parse_from-map-ok buf p (a ++ c) cs
          ∙ ap (λ z. parse_from decode from_json buf p (ok z ∷ [])) (append_assoc a c (concat cs)))

  parse-whole :
      (cs : List Bytes)
      → parse decode from_json (map ok cs) ≡ parse decode from_json (ok (concat cs) ∷ [])
  unfolding parse
  parse-whole [] = unfold parse_from run_lines cut_lines in refl
  parse-whole (c ∷ cs) = parse_from-map-ok [] start c cs

  -- A stream gives the same events, and panics alike, however its bytes are cut into chunks, in the
  -- middle of a line or of a character too.
  pub parse_chunks_alike :
      (cs ds : List Bytes)
      → concat cs ≡ concat ds
      → parse decode from_json (map ok cs) ≡ parse decode from_json (map ok ds)
  parse_chunks_alike cs ds h =
      parse-whole cs ∙ (ap (λ z. parse decode from_json (ok z ∷ [])) h ∙ sym (parse-whole ds))
