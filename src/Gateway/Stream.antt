-- ===== src/Gateway/Stream.antt =====
-- src/gateway/sse.rs: `stream_proxy`, and the loop of `stream_response` in
-- src/gateway/handler/public.rs. What a turn of a loop meets is a list: a tick of the timer, a line
-- as `read_until` gives it, with its end, decoded, or the end or a failure of the reader. Times are
-- nanoseconds.
pub mod Endings
pub mod Passed
mod Tests
use aqua_rust.Common.{
  ℕ, ◌+◌, ◌-◌, String, Bool, true, false, not, Option, none, some, List, [], ◌∷◌, ◌++◌,
  if◌then◌else◌, ltb, secs, str_is_empty, str_contains,
}
use aqua_rust.Common.Texts.{drop_chars, strip_prefix, trim_end, trim_front}
use text.Mathlib.Text.{◌==◌ as str_eq}

abbrev pub sse_chunk_idle_timeout_secs : ℕ
sse_chunk_idle_timeout_secs = 45

pub data Input : Type 0 where
  tick : ℕ → Input
  line : ℕ → String → Input
  eof failure : Input

-- What the sink sends: an event, a comment, or one of the errors of an incomplete stream.
pub data Event : Type 0 where
  event comment : String → Event
  idle_timeout connection_lost : Event
  broken : ℕ → Event

pub record Proxy : Type 0 where
  pub usage : String
  pub chunks : ℕ
  pub last_data : ℕ
  pub committed : Bool
  pub out : List Event
  pub completed : Bool

-- `write_event` marks the writer, `write_comment` does not.
abbrev pub write_event : Event → Proxy → Proxy
write_event e p = record p { committed = true; out = p.out ++ (e ∷ []) }

abbrev pub write_comment : String → Proxy → Proxy
write_comment s p = record p { out = p.out ++ (comment s ∷ []) }

abbrev pub write_if_committed : Event → Proxy → Proxy
write_if_committed e p = if p.committed then write_event e p else p

-- A line of data that is not the end.
abbrev pub pass_data : String → Proxy → Proxy
pass_data chunk p =
    let q = write_event (event chunk) p in
    record q {
      chunks = q.chunks + 1;
      usage = if str_contains chunk "\"usage\"" then chunk else q.usage;
    }

-- The result is returned, or the loop goes on.
pub data Turn : Type 0 where
  return go_on : Proxy → Turn

unfoldable pub on_line : ℕ → String → Proxy → Turn
unfolding strip_prefix
on_line now s p =
    let q : Proxy = record p { last_data = now } in
    if str_is_empty s then go_on p else elim (strip_prefix "data: " s) [
      | none ↦ go_on q
      | some chunk ↦
          if str_eq chunk "[DONE]"
          then return (write_event (event "[DONE]") (record q { completed = true }))
          else go_on (pass_data chunk q)
    ]

unfoldable pub on_tick : ℕ → Proxy → Turn
on_tick now p =
    if ltb (secs sse_chunk_idle_timeout_secs) (now - p.last_data)
    then return (write_if_committed idle_timeout p)
    else go_on (write_comment "ping" p)

unfoldable pub proxy_turn : Input → Proxy → Turn
unfolding on_line on_tick
proxy_turn (tick now) p = on_tick now p
proxy_turn (line now s) p = on_line now s p
proxy_turn eof p = return (write_if_committed connection_lost p)
proxy_turn failure p = return (if ltb 0 p.chunks then write_event (broken p.chunks) p else p)

-- The loop, which waits for more when the list ends.
unfoldable pub proxy_from : Proxy → List Input → Proxy
unfolding proxy_turn
proxy_from p [] = p
proxy_from p (i ∷ is) =
    let rest = λ (q : Proxy). proxy_from q is in
    elim (proxy_turn i p) [ return q ↦ q | go_on q ↦ rest q ]

unfoldable pub stream_proxy : ℕ → Bool → List Input → Proxy
unfolding proxy_from
stream_proxy now committed is =
    proxy_from
      (record {
        usage = "";
        chunks = 0;
        last_data = now;
        committed = committed;
        out = [];
        completed = false;
      })
      is
