-- ===== src/Acugw/Stream/Lines.antt =====
-- acugw/src/sse.rs: the lines of a stream and the events that end with an empty line. Bytes are
-- numbers; the lossy decoding of UTF-8 and the parser of JSON are arguments. A panic ends the task.
use aqua_rust.Common.{
  ℕ, String, Bool, true, false, Option, none, some, List, [], ◌∷◌, ◌++◌, Result, ok, err,
  if◌then◌else◌, ltb, ◌==◌, str_is_empty, str_contains,
}
use aqua_rust.Common.Json.{Value, null, get, and_str, or_text, or_value}
use aqua_rust.Common.Texts.{join, strip_prefix, trim}
use aqua_rust.Acugw.Stream.{PatchState, DsEvent, ready, hint, other, apply_patch, default}
use Prim.Native.String.{len}
use text.Mathlib.Text.{◌==◌ as str_eq, is_char_boundary}

-- `&data[..200]`, of a text of more than 200 bytes, panics inside a character.
abbrev pub preview_panics : String → Bool
preview_panics s =
    if ltb 200 (len s) then (if is_char_boundary s 200 then false else true) else false

-- What parse carries from line to line, apart from the bytes of an unfinished line.
pub record Parser : Type 0 where
  pub st : PatchState
  pub event_type : Option String
  pub data_lines : List String

abbrev pub start : Parser
start = record { st = default; event_type = none; data_lines = [] }

-- Where the parser stands, if it has not panicked, and what it has sent.
abbrev pub Run : Type 0
Run = Option Parser × List DsEvent

abbrev pub hint_event : Value → DsEvent
hint_event json =
    let content = and_str (get "content" json) in
    hint content (and_str (get "finish_reason" json))
      (elim content [ none ↦ false | some s ↦ str_contains s "rate_limit" ])

abbrev pub ready_event : Value → DsEvent
ready_event json =
    ready (or_text "" (and_str (get "request_message_id" json)))
      (or_text "" (and_str (get "response_message_id" json)))

-- The events of one event's JSON, by its type.
unfoldable pub event_of : Option String → PatchState → Value → PatchState × List DsEvent
unfolding str_contains
event_of none st json = apply_patch st json
event_of (some evt) st json =
    if str_eq evt "ready"
    then (st, ready_event json ∷ [])
    else if str_eq evt "hint"
    then (st, hint_event json ∷ [])
    else if str_eq evt "update_session"
    then (st, [])
    else if str_eq evt "close"
    then (st, [])
    else (st, other evt ∷ [])

module _ (from_json : String → Option Value) where
  -- The lines of the data and the type of the event are taken.
  unfoldable pub flush_event : Parser → Run
  unfolding event_of join
  flush_event p =
      let text = join "\n" p.data_lines in
      let (st, evs) = event_of p.event_type p.st (or_value null (from_json text)) in
      if str_is_empty text
      then (some (record p { event_type = none; data_lines = [] }), [])
      else if preview_panics text
      then (none, [])
      else (some (record { st = st; event_type = none; data_lines = [] }), evs)

  -- A line that ends no event.
  unfoldable pub on_field : Parser → String → Parser
  unfolding strip_prefix trim
  on_field p line = elim (strip_prefix "event:" line) [
    | some rest ↦ record p { event_type = some (trim rest) }
    | none ↦ elim (strip_prefix "data:" line) [
      | some rest ↦ record p { data_lines = p.data_lines ++ (trim rest ∷ []) }
      | none ↦ p
    ]
  ]

  unfoldable pub on_line : Parser → String → Run
  unfolding flush_event on_field
  on_line p line = if str_is_empty line then flush_event p else (some (on_field p line), [])

-- What follows a run, unless it has panicked.
abbrev pub then_run : Run → (Parser → Run) → Run
then_run (none, evs) f = (none, evs)
then_run (some p, evs) f = let (q, more) = f p in (q, evs ++ more)

abbrev pub Bytes : Type 0
Bytes = List ℕ

-- A byte in front of lines and an unfinished line.
abbrev pub in_front : ℕ → List Bytes × Bytes → List Bytes × Bytes
in_front c ([], rest) = ([], c ∷ rest)
in_front c (l ∷ ls, rest) = ((c ∷ l) ∷ ls, rest)

-- The lines that the loop drains from the buffer, without their ends, and what it leaves.
unfoldable pub cut_lines : Bytes → List Bytes × Bytes
cut_lines [] = ([], [])
cut_lines (c ∷ s) =
    if c == b'\n' then ([] ∷ (cut_lines s).0, (cut_lines s).1) else in_front c (cut_lines s)

module _ (decode : Bytes → String) (from_json : String → Option Value) where
  unfoldable pub run_lines : Parser → List Bytes → Run
  unfolding on_line trim
  run_lines p [] = (some p, [])
  run_lines p (l ∷ ls) = then_run (on_line from_json p (trim (decode l))) (λ q. run_lines q ls)

  -- The chunks of the stream, until one fails: what is left in the buffer then is not read.
  unfoldable pub parse_from : Bytes → Parser → List (Result String Bytes) → Run
  unfolding run_lines cut_lines flush_event
  parse_from buf p [] = flush_event from_json p
  parse_from buf p (err e ∷ chunks) = flush_event from_json p
  parse_from buf p (ok chunk ∷ chunks) =
      let (ls, rest) = cut_lines (buf ++ chunk) in
      then_run (run_lines p ls) (λ q. parse_from rest q chunks)

  -- The events that a receiver that stays is sent.
  unfoldable pub parse : List (Result String Bytes) → Run
  unfolding parse_from
  parse chunks = parse_from [] start chunks
