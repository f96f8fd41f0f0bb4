-- ===== src/Acugw/Api.antt =====
-- acugw/src/api.rs: the answers to chats, whole and streamed, and the retries with other accounts.
-- What the upstream answers (`ds.rs`, which is not in the repository), the clock and the random
-- generator are arguments. The pieces of a text are kept apart where the code joins them.
pub mod Errors
pub mod Chat
pub mod Agree
pub mod Ends
pub mod Sessions
mod Tests
use aqua_rust.Common.{
  ℕ, ◌+◌, String, Bool, true, false, not, Option, none, some, List, [], ◌∷◌, ◌++◌, ◌&&◌,
  if◌then◌else◌, str_is_empty,
}
use aqua_rust.Acugw.Pool.{Account, mark_muted, mark_transient}
use aqua_rust.Acugw.Stream.{
  DsEvent, FragmentKind, fragment, finished, hint, other, ready, response, think,
}

-- The pieces of the content, whether the answer has ended, and whether it is limited.
pub record Aggregate : Type 0 where
  pub content : List String
  pub finished : Bool
  pub rate_limited : Bool

abbrev pub nothing : Aggregate
nothing = record { content = []; finished = false; rate_limited = false }

unfoldable pub aggregate_from : Aggregate → List DsEvent → Aggregate
aggregate_from a [] = a
aggregate_from a (fragment response c ∷ evs) =
    aggregate_from (record a { content = a.content ++ (c ∷ []) }) evs
aggregate_from a (fragment think c ∷ evs) = aggregate_from a evs
aggregate_from a (finished reason ∷ evs) = record a { finished = true }
aggregate_from a (hint content reason limited ∷ evs) =
    if limited then record a { rate_limited = true } else a
aggregate_from a (ready q r ∷ evs) = aggregate_from a evs
aggregate_from a (other e ∷ evs) = aggregate_from a evs

unfoldable pub aggregate_response : List DsEvent → Aggregate
unfolding aggregate_from
aggregate_response evs = aggregate_from nothing evs

-- The calls of the upstream that leave something behind there.
pub data Call : Type 0 where
  create_session delete_session : String → Call
  stop_stream : String → String → Call

-- The lines of a streamed answer.
pub data Chunk : Type 0 where
  role_chunk : Chunk
  content_chunk : String → Chunk
  finish_chunk : String → Chunk
  done_mark : Chunk

-- The times, the random generator, whether the channel has room for the n-th line, and the session.
pub record StreamEnv : Type 0 where
  pub now : ℕ
  pub unix : ℕ
  pub draw : ℕ → ℕ
  pub has_room : ℕ → Bool
  pub auto_delete : Bool
  pub session_id : String

pub record Stream : Type 0 where
  pub message_id : String
  pub sent_any : Bool
  pub finished_sent : Bool
  pub sends : ℕ
  pub out : List Chunk
  pub account : Account
  pub calls : List Call

-- `try_send`, whose failure is ignored.
abbrev pub send : StreamEnv → Chunk → Stream → Stream
send env c s = record s {
  sends = s.sends + 1;
  out = if env.has_room s.sends then s.out ++ (c ∷ []) else s.out;
}

abbrev pub send_end : StreamEnv → String → Stream → Stream
send_end env reason s = send env done_mark (send env (finish_chunk reason) s)

abbrev pub call : Call → Stream → Stream
call c s = record s { calls = s.calls ++ (c ∷ []) }

-- What follows the loop.
unfoldable pub close_stream : StreamEnv → Stream → Stream
close_stream env s =
    let t = if not s.finished_sent && s.sent_any then send_end env "stop" s else s in
    if env.auto_delete
    then call (delete_session env.session_id) t
    else if not t.sent_any && not (str_is_empty t.message_id)
    then call (stop_stream env.session_id t.message_id) t
    else t

-- A hint ends the stream, and the account rests.
unfoldable pub hint_stream : StreamEnv → Bool → Stream → Stream
hint_stream env limited s =
    let marked =
      if limited
      then mark_muted env.now env.unix env.draw none s.account
      else mark_transient env.now env.draw 240 s.account in
    let t = send_end env "stop" (record s { account = marked }) in
    if env.auto_delete then call (delete_session env.session_id) t else t

abbrev pub or_stop : Option String → String
or_stop none = "stop"
or_stop (some r) = r

-- The loop over the events, until the channel is closed.
unfoldable pub stream_events : StreamEnv → Stream → List DsEvent → Stream
unfolding close_stream hint_stream
stream_events env s [] = close_stream env s
stream_events env s (ready q id ∷ evs) = stream_events env (record s { message_id = id }) evs
stream_events env s (fragment response c ∷ evs) =
    stream_events env (send env (content_chunk c) (record s { sent_any = true })) evs
stream_events env s (fragment think c ∷ evs) = stream_events env s evs
stream_events env s (finished reason ∷ evs) =
    close_stream env (send_end env (or_stop reason) (record s { finished_sent = true }))
stream_events env s (hint content reason limited ∷ evs) = hint_stream env limited s
stream_events env s (other e ∷ evs) = stream_events env s evs

abbrev pub stream_start : Account → Stream
stream_start a = record {
  message_id = "";
  sent_any = false;
  finished_sent = false;
  sends = 0;
  out = [];
  account = a;
  calls = [];
}

unfoldable pub stream_response : StreamEnv → Account → List DsEvent → Stream
unfolding stream_events
stream_response env a evs = stream_events env (send env role_chunk (stream_start a)) evs
