-- ===== src/Acugw/Api/Ends.antt =====
-- acugw/src/api.rs: how a streamed answer ends.
use aqua_rust.Common.{
  ℕ, ◌+◌, ◌≤◌, Bool, true, false, not, none, List, [], ◌∷◌, ◌++◌, ◌≡◌, refl, ap, ◌∙◌, arith, ◌||◌,
  ◌&&◌, if◌then◌else◌, length, ltb, map, String, Bool-cases, inl, inr,
}
use aqua_rust.Acugw.Pool.{Account, mark_muted, mark_transient}
use aqua_rust.Acugw.Stream.{DsEvent, fragment, finished, hint, other, ready, response, think}
use aqua_rust.Acugw.Api.{
  Chunk, Stream, StreamEnv, close_stream, content_chunk, delete_session, done_mark, finish_chunk,
  hint_stream, or_stop, role_chunk, send, send_end, stop_stream, stream_events, stream_response,
  stream_start,
}
use aqua_rust.Acugw.Api.Agree.{
  end_chunks, ends, if-call, if-calls, marks, marks-append, out-close, out-hint, out-send,
  out-send_end, responds,
}

abbrev bit : Bool → ℕ
bit true = 1
bit false = 0

module _ (env : StreamEnv) (room : (n : ℕ) → env.has_room n ≡ true) where
  marks-end : (cs : List Chunk) (r : String) → marks (cs ++ end_chunks r) ≡ marks cs + 1
  marks-end cs r = marks-append cs (end_chunks r)

  marks-close :
      (s : Stream)
      → marks s.out ≡ 0
      → s.finished_sent ≡ false
      → marks (close_stream env s).out ≡ bit s.sent_any
  marks-close s h f = elim (Bool-cases s.sent_any) [
    | inl e ↦ ap marks (out-close env room s) ∙ rw (f, e) (marks-end s.out "stop" ∙ rw h refl)
    | inr e ↦ ap marks (out-close env room s) ∙ rw (f, e) h
  ]

  marks-stream :
      (s : Stream) (evs : List DsEvent)
      → marks s.out ≡ 0
      → s.finished_sent ≡ false
      → marks (stream_events env s evs).out ≡ bit (ends evs || (responds evs || s.sent_any))
  unfolding stream_events
  marks-stream s [] h f = marks-close s h f
  marks-stream s (ready q id ∷ evs) h f = marks-stream (record s { message_id = id }) evs h f
  marks-stream s (other e ∷ evs) h f = marks-stream s evs h f
  marks-stream s (fragment think c ∷ evs) h f = marks-stream s evs h f
  marks-stream s (fragment response c ∷ evs) h f =
      let s' : Stream = record s { sent_any = true } in
      marks-stream (send env (content_chunk c) s') evs
        (ap marks (out-send env room (content_chunk c) s')
          ∙ (marks-append s.out (content_chunk c ∷ []) ∙ rw h refl))
        f
      ∙ ground (arith, Bool-cases (ends evs), Bool-cases (responds evs))
  marks-stream s (finished reason ∷ evs) h f =
      let s' : Stream = record s { finished_sent = true } in
      let r = or_stop reason in
      ap marks (out-close env room (send_end env r s'))
      ∙ (ap marks (out-send_end env room r s') ∙ (marks-end s.out r ∙ rw h refl))
  marks-stream s (hint content reason l ∷ evs) h f =
      ap marks (out-hint env room l s) ∙ (marks-end s.out "stop" ∙ rw h refl)

  -- If there is room for every line, a streamed answer has exactly one done mark where the upstream
  -- has ended it, has given a hint or has sent a piece of the response, and none otherwise.
  pub stream_ends :
      (a : Account) (evs : List DsEvent)
      → marks (stream_response env a evs).out ≡ (if ends evs || responds evs then 1 else 0)
  unfolding stream_response
  stream_ends a evs =
      marks-stream (send env role_chunk (stream_start a)) evs
        (ap marks (out-send env room role_chunk (stream_start a))) refl
      ∙ ground (arith, Bool-cases (ends evs), Bool-cases (responds evs))

module _ (env : StreamEnv) (k : ℕ) (room : (n : ℕ) → env.has_room n ≡ ltb n k) where
  out-send_full : (c : Chunk) (s : Stream) → k ≤ s.sends → (send env c s).out ≡ s.out
  out-send_full c s h = ground (arith, room s.sends)

  out-send_end_full : (r : String) (s : Stream) → k ≤ s.sends → (send_end env r s).out ≡ s.out
  out-send_end_full r s h =
      let t = send env (finish_chunk r) s in
      out-send_full done_mark t (omega arith) ∙ out-send_full (finish_chunk r) s h

  out-close_full : (s : Stream) → k ≤ s.sends → (close_stream env s).out ≡ s.out
  unfolding close_stream
  out-close_full s h = elim (Bool-cases (not s.finished_sent && s.sent_any)) [
    | inl e ↦ rw e (
        if-calls env.auto_delete _ (delete_session env.session_id)
          (stop_stream env.session_id s.message_id) (send_end env "stop" s)
        ∙ out-send_end_full "stop" s h)
    | inr e ↦ rw e (
        if-calls env.auto_delete _ (delete_session env.session_id)
          (stop_stream env.session_id s.message_id) s)
  ]

  out-hint_full : (l : Bool) (s : Stream) → k ≤ s.sends → (hint_stream env l s).out ≡ s.out
  unfolding hint_stream
  out-hint_full l s h =
      let marked =
        if l
        then mark_muted env.now env.unix env.draw none s.account
        else mark_transient env.now env.draw 240 s.account in
      let s' : Stream = record s { account = marked } in
      if-call env.auto_delete (delete_session env.session_id) (send_end env "stop" s')
      ∙ out-send_end_full "stop" s' h

  -- A full channel takes no line any more.
  out-stream_full :
      (s : Stream) (evs : List DsEvent) → k ≤ s.sends → (stream_events env s evs).out ≡ s.out
  unfolding stream_events
  out-stream_full s [] h = out-close_full s h
  out-stream_full s (ready q id ∷ evs) h = out-stream_full (record s { message_id = id }) evs h
  out-stream_full s (other e ∷ evs) h = out-stream_full s evs h
  out-stream_full s (fragment think c ∷ evs) h = out-stream_full s evs h
  out-stream_full s (fragment response c ∷ evs) h =
      let s' : Stream = record s { sent_any = true } in
      out-stream_full (send env (content_chunk c) s') evs (omega arith)
      ∙ out-send_full (content_chunk c) s' h
  out-stream_full s (finished reason ∷ evs) h =
      let s' : Stream = record s { finished_sent = true } in
      out-close_full (send_end env (or_stop reason) s') (omega arith)
      ∙ out-send_end_full (or_stop reason) s' h
  out-stream_full s (hint content reason l ∷ evs) h = out-hint_full l s h

  marks-send_content :
      (c : String) (s : Stream) → marks s.out ≡ 0 → marks (send env (content_chunk c) s).out ≡ 0
  marks-send_content c s h = ground (arith, marks-append s.out (content_chunk c ∷ []))

  marks-cut :
      (s : Stream) (cs : List String) (rest : List DsEvent)
      → marks s.out ≡ 0
      → k ≤ s.sends + length cs
      → marks (stream_events env s (map (fragment response) cs ++ rest)).out ≡ 0
  unfolding stream_events
  marks-cut s [] rest h n = ap marks (out-stream_full s rest (omega arith)) ∙ h
  marks-cut s (c ∷ cs) rest h n =
      let s' : Stream = record s { sent_any = true } in
      marks-cut (send env (content_chunk c) s') cs rest (marks-send_content c s' h) (omega arith)

  -- While the lines of a stream are not read, and the channel has room for `k` of them: a response of
  -- `k` pieces or more, and of `k - 1` too, is cut, and its done mark is not sent.
  pub long_stream_unended :
      (a : Account) (cs : List String) (rest : List DsEvent)
      → k ≤ length cs + 1
      → marks (stream_response env a (map (fragment response) cs ++ rest)).out ≡ 0
  unfolding stream_response
  long_stream_unended a cs rest h =
      marks-cut (send env role_chunk (stream_start a)) cs rest (ground arith) (omega arith)
