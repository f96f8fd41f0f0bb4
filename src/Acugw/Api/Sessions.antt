-- ===== src/Acugw/Api/Sessions.antt =====
-- acugw/src/api.rs: the sessions that the attempts of a chat leave at the upstream.
use aqua_rust.Common.{
  ℕ, zero, suc, String, Bool, true, false, not, List, [], ◌∷◌, ◌++◌, Result, ok, err, ◌≡◌, refl, ap,
  ◌∙◌, ◌&&◌, if◌then◌else◌, Bool-cases, Result-cases, inl, inr, is_empty, ltb, sym,
}
use aqua_rust.Acugw.Pool.{Account, LoginError, ensure_login}
use aqua_rust.Acugw.Stream.{DsEvent, fragment, finished, hint, other, ready, response, think}
use aqua_rust.Acugw.Api.{
  Aggregate, Call, Stream, StreamEnv, aggregate_response, close_stream, create_session,
  delete_session, hint_stream, or_stop, role_chunk, send, send_end, stop_stream, stream_events,
  stream_response, stream_start,
}
use aqua_rust.Acugw.Api.Chat.{
  Attempt, Handled, Outcome, Tried, answer_chat, ask_upstream, attempt, chat_completions,
  chat_rounds, done, finish_whole, follow, retry, stream_env, with_login,
}

-- The sessions that are created, and those that are deleted, in order.
abbrev pub created : List Call → List String
created [] = []
created (create_session id ∷ cs) = id ∷ created cs
created (delete_session id ∷ cs) = created cs
created (stop_stream id m ∷ cs) = created cs

abbrev pub deleted : List Call → List String
deleted [] = []
deleted (create_session id ∷ cs) = deleted cs
deleted (delete_session id ∷ cs) = id ∷ deleted cs
deleted (stop_stream id m ∷ cs) = deleted cs

abbrev Clean : List Call → Type 0
Clean cs = created cs ≡ deleted cs

created-append : (cs ds : List Call) → created (cs ++ ds) ≡ created cs ++ created ds
created-append [] ds = refl
created-append (create_session id ∷ cs) ds = ap (λ zs. id ∷ zs) (created-append cs ds)
created-append (delete_session id ∷ cs) ds = created-append cs ds
created-append (stop_stream id m ∷ cs) ds = created-append cs ds

deleted-append : (cs ds : List Call) → deleted (cs ++ ds) ≡ deleted cs ++ deleted ds
deleted-append [] ds = refl
deleted-append (create_session id ∷ cs) ds = deleted-append cs ds
deleted-append (delete_session id ∷ cs) ds = ap (λ zs. id ∷ zs) (deleted-append cs ds)
deleted-append (stop_stream id m ∷ cs) ds = deleted-append cs ds

Clean-append : (cs ds : List Call) → Clean cs → Clean ds → Clean (cs ++ ds)
Clean-append cs ds h k =
    created-append cs ds
    ∙ (ap (λ zs. zs ++ created ds) h ∙ (ap (λ zs. deleted cs ++ zs) k ∙ sym (deleted-append cs ds)))

module _ (env : StreamEnv) (auto : env.auto_delete ≡ true) where
  calls-send_end :
      (b : Bool) (s : Stream) → (if b then send_end env "stop" s else s).calls ≡ s.calls
  calls-send_end true s = refl
  calls-send_end false s = refl

  calls-close :
      (s : Stream) → s.calls ≡ [] → (close_stream env s).calls ≡ delete_session env.session_id ∷ []
  unfolding close_stream
  calls-close s h = rw auto (
      ap (λ cs. cs ++ (delete_session env.session_id ∷ []))
        (calls-send_end (not s.finished_sent && s.sent_any) s ∙ h))

  calls-stream :
      (s : Stream) (evs : List DsEvent)
      → s.calls ≡ []
      → (stream_events env s evs).calls ≡ delete_session env.session_id ∷ []
  unfolding stream_events hint_stream
  calls-stream s [] h = calls-close s h
  calls-stream s (ready q id ∷ evs) h = calls-stream (record s { message_id = id }) evs h
  calls-stream s (other e ∷ evs) h = calls-stream s evs h
  calls-stream s (fragment think c ∷ evs) h = calls-stream s evs h
  calls-stream s (fragment response c ∷ evs) h = calls-stream _ evs h
  calls-stream s (finished reason ∷ evs) h =
      let s' : Stream = record s { finished_sent = true } in
      calls-close (send_end env (or_stop reason) s') h
  calls-stream s (hint content reason l ∷ evs) h =
      rw auto (ap (λ cs. cs ++ (delete_session env.session_id ∷ [])) h)

Clean-pair : (id : String) → Clean (create_session id ∷ (delete_session id ∷ []))
Clean-pair id = refl

-- With `auto_delete`.
finish_whole-Clean :
    (t : Attempt) (a : Account) (id : String) (r : Aggregate)
    → Clean (finish_whole t true a id r).calls
unfolding finish_whole
finish_whole-Clean t a id r = elim (Bool-cases r.rate_limited) [
  | inl e ↦ rw e refl
  | inr e ↦ elim (Bool-cases (not r.finished && is_empty r.content)) [
    | inl f ↦ rw (e, f) refl
    | inr f ↦ rw (e, f) refl
  ]
]

answer_chat-Clean :
    (t : Attempt) (is_stream : Bool) (a : Account) (id : String) (evs : List DsEvent)
    → Clean (answer_chat t is_stream true a id evs).calls
unfolding answer_chat
answer_chat-Clean t true a id evs =
    unfold stream_response in
    rw
      (calls-stream (stream_env t true id) refl
        (send (stream_env t true id) role_chunk (stream_start a)) evs refl)
      refl
answer_chat-Clean t false a id evs = finish_whole-Clean t a id (aggregate_response evs)

ask_upstream-Clean :
    (t : Attempt) (is_stream : Bool) (a : Account) → Clean (ask_upstream t is_stream true a).calls
unfolding ask_upstream
ask_upstream-Clean t is_stream a = elim (Result-cases t.session) [
  | inl (e, p) ↦ rw (p, ask_upstream) refl
  | inr (id, p) ↦ elim (Result-cases t.pow) [
    | inl (e, q) ↦ rw (p, q) refl
    | inr (header, q) ↦ elim (Result-cases t.chat) [
      | inl (e, r) ↦ rw (p, q, r) refl
      | inr (evs, r) ↦ rw (p, q, r) (answer_chat-Clean t is_stream a id evs)
    ]
  ]
]

with_login-Clean :
    (t : Attempt) (last is_stream : Bool) (r : Account × Result LoginError String)
    → Clean (with_login t last is_stream true r).calls
with_login-Clean t last is_stream (a, ok token) = ask_upstream-Clean t is_stream a
with_login-Clean t last is_stream (a, err e) = refl

attempt-Clean :
    (t : Attempt) (last is_stream : Bool) (a : Account)
    → Clean (attempt t last is_stream true a).calls
unfolding attempt
attempt-Clean t last is_stream a =
    with_login-Clean t last is_stream (ensure_login t.started t.env.now t.backoff t.login_answer a)

follow-Clean :
    (r : Tried) (rest : String → Handled) (o : Outcome)
    → Clean r.calls
    → ((e : String) → Clean (rest e).calls)
    → Clean (follow r rest o).calls
follow-Clean r rest (done answer) h k = h
follow-Clean r rest (retry e) h k = Clean-append r.calls (rest e).calls h (k e)

rounds-Clean :
    (left : ℕ) (is_stream : Bool) (last_err : String) (ts : List Attempt)
    → Clean (chat_rounds left is_stream true last_err ts).calls
unfolding chat_rounds
rounds-Clean zero is_stream last_err ts = refl
rounds-Clean (suc left) is_stream last_err [] = refl
rounds-Clean (suc left) is_stream last_err (t ∷ ts) = elim (Result-cases t.acquired) [
  | inl (e, p) ↦ rw (p, chat_rounds) refl
  | inr (a, p) ↦
      let r = attempt t (ltb left 1) is_stream true a in
      rw (p, chat_rounds)
        (follow-Clean r (λ e. chat_rounds left is_stream true e ts) r.outcome
          (attempt-Clean t (ltb left 1) is_stream a) (λ e. rounds-Clean left is_stream e ts))
]

-- With `auto_delete`, a chat deletes every session that it creates, in the order of their creation,
-- whatever fails in its attempts and whether the answer is streamed or not.
pub sessions_deleted :
    (is_stream : Bool) (ts : List Attempt)
    → created (chat_completions is_stream true ts).calls
      ≡ deleted (chat_completions is_stream true ts).calls
unfolding chat_completions
sessions_deleted is_stream ts = rounds-Clean 3 is_stream "no account" ts
