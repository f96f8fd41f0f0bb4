-- ===== src/Acugw/Stream/Trimmed.antt =====
-- acugw/src/sse.rs: what is left of the pieces of an answer, for a whole stream.
use aqua_rust.Common.{
  String, Option, none, some, List, [], ◌∷◌, ◌++◌, Result, ok, err, arith, All, All-append,
}
use aqua_rust.Common.Json.{Value, null, or_value}
use aqua_rust.Common.Texts.{join, trim}
use aqua_rust.Acugw.Stream.Lines.{
  Bytes, Parser, Run, cut_lines, flush_event, on_line, parse, parse_from, run_lines, start,
  then_run,
}
use aqua_rust.Acugw.Stream.Pieces.{AllTrimmed, IsTrimmed, event_of-AllTrimmed}

module _ (decode : Bytes → String) (from_json : String → Option Value) where
  flush_event-AllTrimmed : (p : Parser) → AllTrimmed (flush_event from_json p).1
  unfolding flush_event
  flush_event-AllTrimmed p =
      let text = join "\n" p.data_lines in
      ground (arith, event_of-AllTrimmed p.event_type p.st (or_value null (from_json text)))

  on_line-AllTrimmed : (p : Parser) (line : String) → AllTrimmed (on_line from_json p line).1
  unfolding on_line
  on_line-AllTrimmed p line = ground (arith, flush_event-AllTrimmed p)

  then_run-AllTrimmed :
      (r : Run) (f : Parser → Run)
      → AllTrimmed r.1
      → ((q : Parser) → AllTrimmed (f q).1)
      → AllTrimmed (then_run r f).1
  then_run-AllTrimmed (none, evs) f h k = h
  then_run-AllTrimmed (some p, evs) f h k = All-append IsTrimmed evs (f p).1 h (k p)

  run_lines-AllTrimmed :
      (p : Parser) (ls : List Bytes) → AllTrimmed (run_lines decode from_json p ls).1
  unfolding run_lines
  run_lines-AllTrimmed p [] = tt
  run_lines-AllTrimmed p (l ∷ ls) =
      then_run-AllTrimmed (on_line from_json p (trim (decode l))) _
        (on_line-AllTrimmed p (trim (decode l))) (λ q. run_lines-AllTrimmed q ls)

  parse_from-AllTrimmed :
      (buf : Bytes) (p : Parser) (chunks : List (Result String Bytes))
      → AllTrimmed (parse_from decode from_json buf p chunks).1
  unfolding parse_from
  parse_from-AllTrimmed buf p [] = flush_event-AllTrimmed p
  parse_from-AllTrimmed buf p (err e ∷ chunks) = flush_event-AllTrimmed p
  parse_from-AllTrimmed buf p (ok chunk ∷ chunks) =
      let c = cut_lines (buf ++ chunk) in
      then_run-AllTrimmed (run_lines decode from_json p c.0) _ (run_lines-AllTrimmed p c.0)
        (λ q. parse_from-AllTrimmed c.1 q chunks)

  -- No piece of an answer that a stream gives is empty, and none has white space at its ends: what
  -- separates the words of two pieces is lost.
  pub parse_trims :
      (chunks : List (Result String Bytes)) → All IsTrimmed (parse decode from_json chunks).1
  unfolding parse
  parse_trims chunks = parse_from-AllTrimmed [] start chunks
