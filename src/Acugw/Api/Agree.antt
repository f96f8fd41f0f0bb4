-- ===== src/Acugw/Api/Agree.antt =====
-- acugw/src/api.rs: an answer that is streamed and the same answer read whole.
use aqua_rust.Common.{
  ℕ, ◌+◌, String, Bool, true, false, none, List, [], ◌∷◌, ◌++◌, ◌≡◌, refl, ap, ◌∙◌, arith,
  if◌then◌else◌, Bool-cases, inl, inr, sym, not, ◌&&◌, str_is_empty,
}
use aqua_rust.Acugw.Pool.{Account, mark_muted, mark_transient}
use aqua_rust.Acugw.Stream.{DsEvent, fragment, finished, hint, other, ready, response, think}
use aqua_rust.Acugw.Api.{
  Aggregate, Call, Chunk, call, delete_session, stop_stream, Stream, StreamEnv, aggregate_from,
  aggregate_response, close_stream, content_chunk, done_mark, finish_chunk, hint_stream, nothing,
  or_stop, role_chunk, send, send_end, stream_events, stream_response, stream_start,
}
use mathlib.Core.List.{append_assoc, append-nil}

-- The pieces of content, and the number of done marks, of a streamed answer.
abbrev pub piece : Chunk → List String
piece role_chunk = []
piece (content_chunk c) = c ∷ []
piece (finish_chunk r) = []
piece done_mark = []

abbrev pub pieces : List Chunk → List String
pieces [] = []
pieces (c ∷ cs) = piece c ++ pieces cs

abbrev pub mark : Chunk → ℕ
mark role_chunk = 0
mark (content_chunk c) = 0
mark (finish_chunk r) = 0
mark done_mark = 1

abbrev pub marks : List Chunk → ℕ
marks [] = 0
marks (c ∷ cs) = mark c + marks cs

pub pieces-append : (cs ds : List Chunk) → pieces (cs ++ ds) ≡ pieces cs ++ pieces ds
pieces-append [] ds = refl
pieces-append (c ∷ cs) ds =
    ap (λ zs. piece c ++ zs) (pieces-append cs ds)
    ∙ sym (append_assoc (piece c) (pieces cs) (pieces ds))

pub marks-append : (cs ds : List Chunk) → marks (cs ++ ds) ≡ marks cs + marks ds
marks-append [] ds = omega arith
marks-append (c ∷ cs) ds = omega (arith, marks-append cs ds)

-- The events hold an end, or a hint; they hold a piece of the response.
abbrev pub ends : List DsEvent → Bool
ends [] = false
ends (finished r ∷ evs) = true
ends (hint c r l ∷ evs) = true
ends (fragment k c ∷ evs) = ends evs
ends (ready q r ∷ evs) = ends evs
ends (other e ∷ evs) = ends evs

abbrev pub responds : List DsEvent → Bool
responds [] = false
responds (fragment response c ∷ evs) = true
responds (fragment think c ∷ evs) = responds evs
responds (finished r ∷ evs) = responds evs
responds (hint c r l ∷ evs) = responds evs
responds (ready q r ∷ evs) = responds evs
responds (other e ∷ evs) = responds evs

-- Calls of the upstream send no line.
pub if-calls :
    (b d : Bool) (x y : Call) (t : Stream)
    → (if b then call x t else if d then call y t else t).out ≡ t.out
if-calls true d x y t = refl
if-calls false true x y t = refl
if-calls false false x y t = refl

pub if-call : (b : Bool) (x : Call) (t : Stream) → (if b then call x t else t).out ≡ t.out
if-call true x t = refl
if-call false x t = refl

pub if-out : (b : Bool) (s t : Stream) → (if b then s else t).out ≡ (if b then s.out else t.out)
if-out true s t = refl
if-out false s t = refl

abbrev pub end_chunks : String → List Chunk
end_chunks r = finish_chunk r ∷ done_mark ∷ []

hint_content :
    (l : Bool) (a : Aggregate)
    → a.content
      ≡ (if l then (let b : Aggregate = record a { rate_limited = true } in b) else a).content
hint_content true a = refl
hint_content false a = refl

module _ (env : StreamEnv) (room : (n : ℕ) → env.has_room n ≡ true) where
  pub out-send : (c : Chunk) (s : Stream) → (send env c s).out ≡ s.out ++ (c ∷ [])
  out-send c s = rw (room s.sends) refl

  pub out-send_end : (r : String) (s : Stream) → (send_end env r s).out ≡ s.out ++ end_chunks r
  out-send_end r s =
      let t = send env (finish_chunk r) s in
      out-send done_mark t
      ∙ (ap (λ zs. zs ++ (done_mark ∷ [])) (out-send (finish_chunk r) s)
          ∙ append_assoc s.out (finish_chunk r ∷ []) (done_mark ∷ []))

  pub out-close :
      (s : Stream)
      → (close_stream env s).out
        ≡ (if not s.finished_sent && s.sent_any then s.out ++ end_chunks "stop" else s.out)
  unfolding close_stream
  out-close s =
      let ended = not s.finished_sent && s.sent_any in
      let t = if ended then send_end env "stop" s else s in
      if-calls env.auto_delete (not t.sent_any && not (str_is_empty t.message_id))
        (delete_session env.session_id) (stop_stream env.session_id t.message_id) t
      ∙ (if-out ended (send_end env "stop" s) s
          ∙ ap (λ zs. if ended then zs else s.out) (out-send_end "stop" s))

  pub out-hint : (l : Bool) (s : Stream) → (hint_stream env l s).out ≡ s.out ++ end_chunks "stop"
  unfolding hint_stream
  out-hint l s =
      let marked =
        if l
        then mark_muted env.now env.unix env.draw none s.account
        else mark_transient env.now env.draw 240 s.account in
      let s' : Stream = record s { account = marked } in
      if-call env.auto_delete (delete_session env.session_id) (send_end env "stop" s')
      ∙ out-send_end "stop" s'

  pieces-end : (cs : List Chunk) (r : String) → pieces (cs ++ end_chunks r) ≡ pieces cs
  pieces-end cs r = pieces-append cs (end_chunks r) ∙ append-nil (pieces cs)

  pieces-close : (s : Stream) → pieces (close_stream env s).out ≡ pieces s.out
  pieces-close s = elim (Bool-cases (not s.finished_sent && s.sent_any)) [
    | inl e ↦ ap pieces (out-close s) ∙ rw e (pieces-end s.out "stop")
    | inr e ↦ ap pieces (out-close s) ∙ rw e refl
  ]

  pieces-stream :
      (s : Stream) (a : Aggregate) (evs : List DsEvent)
      → pieces s.out ≡ a.content
      → pieces (stream_events env s evs).out ≡ (aggregate_from a evs).content
  unfolding stream_events aggregate_from
  pieces-stream s a [] h = pieces-close s ∙ h
  pieces-stream s a (ready q id ∷ evs) h = pieces-stream (record s { message_id = id }) a evs h
  pieces-stream s a (other e ∷ evs) h = pieces-stream s a evs h
  pieces-stream s a (fragment think c ∷ evs) h = pieces-stream s a evs h
  pieces-stream s a (fragment response c ∷ evs) h =
      let s' : Stream = record s { sent_any = true } in
      pieces-stream (send env (content_chunk c) s') (record a { content = a.content ++ (c ∷ []) })
        evs
        (ap pieces (out-send (content_chunk c) s')
          ∙ (pieces-append s.out (content_chunk c ∷ []) ∙ ap (λ zs. zs ++ (c ∷ [])) h))
  pieces-stream s a (finished reason ∷ evs) h =
      let s' : Stream = record s { finished_sent = true } in
      let r = or_stop reason in
      pieces-close (send_end env r s') ∙ (ap pieces (out-send_end r s') ∙ (pieces-end s.out r ∙ h))
  pieces-stream s a (hint content reason l ∷ evs) h =
      ap pieces (out-hint l s) ∙ (pieces-end s.out "stop" ∙ (h ∙ hint_content l a))

  -- If there is room for every line, the pieces of content that are streamed are those of the same
  -- answer read whole, in order.
  pub stream_matches_whole :
      (a : Account) (evs : List DsEvent)
      → pieces (stream_response env a evs).out ≡ (aggregate_response evs).content
  unfolding stream_response aggregate_response
  stream_matches_whole a evs =
      pieces-stream (send env role_chunk (stream_start a)) nothing evs
        (ap pieces (out-send role_chunk (stream_start a)))
