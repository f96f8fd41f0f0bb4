-- ===== src/Acugw/Api/Chat.antt =====
-- acugw/src/api.rs: `chat_completions`, behind the checks of the request. An attempt is what the
-- pool and the upstream say to it, and when. The marks of a streamed answer come before the guard's drop.
use aqua_rust.Common.{
  ℕ, zero, suc, String, Bool, not, ◌&&◌, none, List, [], ◌∷◌, ◌++◌, Result, ok, err, if◌then◌else◌,
  is_empty, ltb,
}
use aqua_rust.Acugw.Pool.{Account, LoginError, ensure_login, mark_muted, mark_transient, release}
use aqua_rust.Acugw.Stream.{DsEvent}
use aqua_rust.Acugw.Api.{
  Aggregate, Call, Chunk, StreamEnv, aggregate_response, create_session, delete_session,
  stream_response,
}
use aqua_rust.Acugw.Api.Errors.{ErrEnv, handle_up_err}

pub record Attempt : Type 0 where
  -- The account, or why none is free.
  pub acquired : Result String Account
  -- The time of the login's start and the seconds of its backoff, its answer and its text if it fails.
  pub started : ℕ
  pub backoff : ℕ → ℕ
  pub login_answer : Result String String
  pub login_text : LoginError → String
  -- The session, the proof of work, the chat's events, each with the text of a failure.
  pub session : Result String String
  pub pow : Result String String
  pub chat : Result String (List DsEvent)
  pub env : ErrEnv
  pub now_millis : ℕ
  pub has_room : ℕ → Bool

-- An answer of the handler.
pub data Answer : Type 0 where
  unavailable : String → Answer
  whole : Aggregate → Answer
  streamed : List Chunk → Answer

-- What an attempt comes to: a text for the next one, or the answer.
pub data Outcome : Type 0 where
  retry : String → Outcome
  done : Answer → Outcome

-- The account afterwards, the calls, and the outcome.
pub record Tried : Type 0 where
  pub account : Account
  pub calls : List Call
  pub outcome : Outcome

-- A failure that `handle_up_err` sorts.
abbrev pub failed : Attempt → Account → List Call → String → Tried
failed t a calls e = record { account = handle_up_err t.env a e; calls = calls; outcome = retry e }

abbrev pub cleanup : Bool → String → List Call
cleanup auto_delete id = if auto_delete then delete_session id ∷ [] else []

-- The end of an answer that is not streamed.
unfoldable pub finish_whole : Attempt → Bool → Account → String → Aggregate → Tried
finish_whole t auto_delete a id r =
    let calls = create_session id ∷ cleanup auto_delete id in
    if r.rate_limited
    then record {
      account = mark_muted t.env.now t.env.unix t.env.draw none a;
      calls = calls;
      outcome = retry "account muted or rate limited";
    }
    else if not r.finished && is_empty r.content
    then record {
      account = mark_transient t.env.now t.env.draw 240 a;
      calls = calls;
      outcome = retry "upstream returned empty response";
    }
    else record { account = a; calls = calls; outcome = done (whole r) }

abbrev pub stream_env : Attempt → Bool → String → StreamEnv
stream_env t auto_delete id = record {
  now = t.env.now;
  unix = t.env.unix;
  draw = t.env.draw;
  has_room = t.has_room;
  auto_delete = auto_delete;
  session_id = id;
}

-- The chat's answer.
unfoldable pub answer_chat : Attempt → Bool → Bool → Account → String → List DsEvent → Tried
unfolding finish_whole aggregate_response stream_response
answer_chat t is_stream auto_delete a id evs =
    let s = stream_response (stream_env t auto_delete id) a evs in
    if is_stream
    then record {
      account = s.account;
      calls = create_session id ∷ s.calls;
      outcome = done (streamed s.out);
    }
    else finish_whole t auto_delete a id (aggregate_response evs)

-- From the login on: the session, the proof of work and the chat.
unfoldable pub ask_upstream : Attempt → Bool → Bool → Account → Tried
unfolding answer_chat handle_up_err
ask_upstream t is_stream auto_delete a = elim t.session [
  | err e ↦ failed t a [] e
  | ok id ↦ elim t.pow [
    | err e ↦ failed t a (create_session id ∷ delete_session id ∷ []) e
    | ok header ↦ elim t.chat [
      | err e ↦ failed t a (create_session id ∷ delete_session id ∷ []) e
      | ok evs ↦ answer_chat t is_stream auto_delete a id evs
    ]
  ]
]

-- A failed login is the handler's answer in the last round.
abbrev pub login_outcome : Bool → String → Outcome
login_outcome last e = if last then done (unavailable e) else retry e

abbrev pub with_login : Attempt → Bool → Bool → Bool → Account × Result LoginError String → Tried
with_login t last is_stream auto_delete (a, ok token) = ask_upstream t is_stream auto_delete a
with_login t last is_stream auto_delete (a, err e) = record {
  account = a;
  calls = [];
  outcome = login_outcome last (t.login_text e);
}

-- The guard is dropped at the end.
abbrev pub drop_guard : Attempt → Tried → Tried
drop_guard t r = record r { account = release t.now_millis r.account }

unfoldable pub attempt : Attempt → Bool → Bool → Bool → Account → Tried
unfolding ask_upstream ensure_login
attempt t last is_stream auto_delete a = drop_guard t (
    with_login t last is_stream auto_delete
      (ensure_login t.started t.env.now t.backoff t.login_answer a))

-- The accounts afterwards, all calls in their order, and the answer.
pub record Handled : Type 0 where
  pub accounts : List Account
  pub calls : List Call
  pub answer : Answer

abbrev pub behind : Tried → Handled → Handled
behind r h = record h { accounts = r.account ∷ h.accounts; calls = r.calls ++ h.calls }

abbrev pub answered : Tried → Answer → Handled
answered r a = record { accounts = r.account ∷ []; calls = r.calls; answer = a }

-- What follows an attempt, with the rounds behind it as a function of its failure.
abbrev pub follow : Tried → (String → Handled) → Outcome → Handled
follow r rest (done answer) = answered r answer
follow r rest (retry e) = behind r (rest e)

-- `left` rounds are left; the list has the attempts of them.
unfoldable pub chat_rounds : ℕ → Bool → Bool → String → List Attempt → Handled
unfolding attempt
chat_rounds zero is_stream auto_delete last_err ts = record {
  accounts = [];
  calls = [];
  answer = unavailable last_err;
}
chat_rounds (suc left) is_stream auto_delete last_err [] = record {
  accounts = [];
  calls = [];
  answer = unavailable last_err;
}
chat_rounds (suc left) is_stream auto_delete last_err (t ∷ ts) =
    let rest = λ (e : String). chat_rounds left is_stream auto_delete e ts in
    elim t.acquired [
      | err e ↦ record { accounts = []; calls = []; answer = unavailable e }
      | ok a ↦ let r = attempt t (ltb left 1) is_stream auto_delete a in follow r rest r.outcome
    ]

unfoldable pub chat_completions : Bool → Bool → List Attempt → Handled
unfolding chat_rounds
chat_completions is_stream auto_delete ts = chat_rounds 3 is_stream auto_delete "no account" ts
