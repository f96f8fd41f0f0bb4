-- ===== src/Acugw/Stream/Pieces.antt =====
-- acugw/src/sse.rs: what is left of the pieces of an answer, for each patch.
use aqua_rust.Common.{
  ℕ, String, Option, none, some, List, [], ◌∷◌, ◌++◌, ◌≡◌, ◌≢◌, arith, All, All-append,
  Option-cases, inl, inr, get_elem?, length,
}
use aqua_rust.Common.Json.{
  Value, get, and_str, and_array, as_array, or_empty, or_text, as_str, index,
}
use aqua_rust.Common.Texts.{codes, strip_prefix, strip_suffix, trim}
use aqua_rust.Acugw.Stream.{
  DsEvent, Fragments, PatchState, append_at, append_content, apply_batch, apply_first,
  apply_increment, apply_patch, apply_patch_at, apply_patch_to, apply_snapshot, apply_value,
  content_event, content_of, finished, fragment, FragmentKind, hint, kind_of, other, push_fragments,
  ready, remember, sanitize_content, sent, remove_each, deepseek_leak_patterns, response, slot_for,
  status_event, full_path, trim_slashes,
}
use aqua_rust.Acugw.Stream.Lines.{event_of}
use aqua_rust.Gateway.Signing.{parse_i64}
use aqua_rust.Common.Texts.Trims.{trim_idem}

-- A piece of an answer that is not empty and has no white space at its ends.
abbrev pub IsTrimmed : DsEvent → Type 0
IsTrimmed (fragment kind content) = (content ≢ "") × (trim content ≡ content)
IsTrimmed (ready a b) = Unit
IsTrimmed (finished r) = Unit
IsTrimmed (hint c f r) = Unit
IsTrimmed (other e) = Unit

sent-IsTrimmed' : (kind : FragmentKind) (t : String) → trim t ≡ t → All IsTrimmed (sent kind t)
sent-IsTrimmed' kind t h = ground arith

sent-IsTrimmed : (kind : FragmentKind) (s : String) → All IsTrimmed (sent kind (sanitize_content s))
unfolding sanitize_content
sent-IsTrimmed kind s =
    let cleaned = remove_each deepseek_leak_patterns s in
    sent-IsTrimmed' kind (trim cleaned) (trim_idem cleaned)

abbrev pub AllTrimmed : List DsEvent → Type 0
AllTrimmed evs = All IsTrimmed evs

content_event-AllTrimmed : (o : Option String) → AllTrimmed (content_event o)
content_event-AllTrimmed none = tt
content_event-AllTrimmed (some s) = sent-IsTrimmed response s

status_event-AllTrimmed : (o : Option String) → AllTrimmed (status_event o)
status_event-AllTrimmed none = tt
status_event-AllTrimmed (some s) = ground arith

push_fragments-AllTrimmed : (fs : Fragments) (vs : List Value) → AllTrimmed (push_fragments fs vs).1
unfolding push_fragments
push_fragments-AllTrimmed fs [] = tt
push_fragments-AllTrimmed fs (v ∷ vs) =
    All-append IsTrimmed (sent (kind_of v) (content_of v)) _
      (sent-IsTrimmed (kind_of v) (or_text "" (and_str (get "content" v))))
      (push_fragments-AllTrimmed (fs ++ ((kind_of v, content_of v) ∷ [])) vs)

append_at-AllTrimmed :
    (st : PatchState) (i : ℕ) (content : String) → AllTrimmed (append_at st i content).1
unfolding append_at
append_at-AllTrimmed st i content = elim (Option-cases (get_elem? st.fragments i)) [
  | inl e ↦ ground (arith, e)
  | inr ((kind, text), e) ↦ ground (arith, e, sent-IsTrimmed kind content)
]

append_content-AllTrimmed :
    (st : PatchState) (idx : String) (o : Option String) → AllTrimmed (append_content st idx o).1
unfolding append_content
append_content-AllTrimmed st idx none = tt
append_content-AllTrimmed st idx (some content) =
    elim (Option-cases (slot_for (length st.fragments) (parse_i64 (codes idx)))) [
      | inl e ↦ ground (arith, e)
      | inr (i, e) ↦ ground (arith, e, append_at-AllTrimmed st i content)
    ]

apply_increment-AllTrimmed :
    (st : PatchState) (path : String) (v : Value) → AllTrimmed (apply_increment st path v).1
unfolding apply_increment
apply_increment-AllTrimmed st path v =
    elim (Option-cases (strip_prefix "response/fragments/" path)) [
      | inl e ↦ ground (arith, e)
      | inr (rest, e) ↦ elim (Option-cases (strip_suffix "/content" rest)) [
        | inl f ↦ ground (arith, e, f)
        | inr (idx, f) ↦ ground (arith, e, f, append_content-AllTrimmed st idx (as_str v))
      ]
    ]

apply_patch_to-AllTrimmed :
    (st : PatchState) (path op : String) (v : Value) → AllTrimmed (apply_patch_to st path op v).1
unfolding apply_patch_to
apply_patch_to-AllTrimmed st path op v = ground (
  arith,
  status_event-AllTrimmed (as_str v),
  content_event-AllTrimmed (as_str v),
  push_fragments-AllTrimmed st.fragments (or_empty (as_array v)),
  apply_increment-AllTrimmed st path v,
)

apply_patch_at-AllTrimmed :
    (st : PatchState) (path op : String) (v : Value) → AllTrimmed (apply_patch_at st path op v).1
unfolding apply_patch_at
apply_patch_at-AllTrimmed st path op v = apply_patch_to-AllTrimmed st (trim_slashes path) op v

apply_batch-AllTrimmed :
    (st : PatchState) (path : String) (vs : List Value) → AllTrimmed (apply_batch st path vs).1
unfolding apply_batch
apply_batch-AllTrimmed st path [] = tt
apply_batch-AllTrimmed st path (item ∷ rest) =
    let full = full_path path (or_text "" (and_str (get "p" item))) in
    let op = or_text "SET" (and_str (get "o" item)) in
    let first = apply_patch_at st full op (index item "v") in
    All-append IsTrimmed first.1 (apply_batch first.0 path rest).1
      (apply_patch_at-AllTrimmed st full op (index item "v"))
      (apply_batch-AllTrimmed first.0 path rest)

apply_snapshot-AllTrimmed : (st : PatchState) (v : Value) → AllTrimmed (apply_snapshot st v).1
unfolding apply_snapshot
apply_snapshot-AllTrimmed st v = elim (Option-cases (and_array (get "fragments" v))) [
  | inl e ↦ ground (arith, e)
  | inr (vs, e) ↦ ground (arith, e, push_fragments-AllTrimmed [] vs)
]

apply_first-AllTrimmed : (st : PatchState) (v : Value) → AllTrimmed (apply_first st v).1
apply_first-AllTrimmed st v = elim (Option-cases (get "response" v)) [
  | inl e ↦ ground (arith, e, content_event-AllTrimmed (as_str v))
  | inr (resp, e) ↦ ground (arith, e, apply_snapshot-AllTrimmed st resp)
]

apply_value-AllTrimmed : (st : PatchState) (v : Value) → AllTrimmed (apply_value st v).1
unfolding apply_value
apply_value-AllTrimmed st v = ground (
  arith,
  apply_first-AllTrimmed st v,
  apply_batch-AllTrimmed st st.path (or_empty (as_array v)),
  apply_patch_at-AllTrimmed st st.path st.op v,
)

apply_patch-AllTrimmed : (st : PatchState) (json : Value) → AllTrimmed (apply_patch st json).1
unfolding apply_patch
apply_patch-AllTrimmed st json = elim (Option-cases (get "v" json)) [
  | inl e ↦ ground (arith, e)
  | inr (v, e) ↦ ground (arith, e, apply_value-AllTrimmed (remember st json) v)
]

pub event_of-AllTrimmed :
    (o : Option String) (st : PatchState) (json : Value) → AllTrimmed (event_of o st json).1
unfolding event_of
event_of-AllTrimmed none st json = apply_patch-AllTrimmed st json
event_of-AllTrimmed (some evt) st json = ground arith
