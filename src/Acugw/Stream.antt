-- ===== src/Acugw/Stream.antt =====
-- acugw/src/sse.rs: the patches of an upstream's stream. What one event does to the fragments of an
-- answer, and the events that it gives.
pub mod Lines
pub mod Chunks
pub mod Pieces
pub mod Trimmed
mod Tests
use aqua_rust.Common.{
  ℕ, zero, suc, ◌-◌, String, Bool, true, false, Option, none, some, List, [], ◌∷◌, ◌++◌, ◌&&◌, ◌||◌,
  ℤ, pos, negsuc, if◌then◌else◌, ltb, ◌==◌, length, get_elem?, is_some, str_is_empty,
}
use aqua_rust.Common.Json.{
  Value, null, get, and_str, and_array, as_str, as_array, index, or_empty, or_text, is_text,
}
use aqua_rust.Common.Texts.{
  codes, remove_all, remove_from, skip_while, starts_with, strip_prefix, strip_suffix, trim,
}
use aqua_rust.Gateway.Signing.{parse_i64}
use Prim.Native.String.{◌++◌ as str_append}
use text.Mathlib.Text.{◌==◌ as str_eq}

abbrev pub deepseek_leak_patterns : List String
deepseek_leak_patterns =
    "<|begin▁of▁sentence|>" ∷ "<|end▁of▁sentence|>" ∷ "<|System|>" ∷ "<|User|>" ∷ "<|Assistant|>"
    ∷ "<|end▁of▁instructions|>" ∷ "Output integrity guard" ∷ "<!--" ∷ "-->" ∷ []

unfoldable pub remove_each : List String → String → String
unfolding remove_from
remove_each [] s = s
remove_each (p ∷ ps) s = remove_each ps (remove_all p s)

unfoldable pub sanitize_content : String → String
unfolding remove_each trim
sanitize_content raw = trim (remove_each deepseek_leak_patterns raw)

pub data FragmentKind : Type 0 where
  think response : FragmentKind

pub data DsEvent : Type 0 where
  ready : String → String → DsEvent
  fragment : FragmentKind → String → DsEvent
  finished : Option String → DsEvent
  hint : Option String → Option String → Bool → DsEvent
  other : String → DsEvent

abbrev pub Fragments : Type 0
Fragments = List (FragmentKind × String)

pub record PatchState : Type 0 where
  pub path : String
  pub op : String
  pub fragments : Fragments

abbrev pub default : PatchState
default = record { path = ""; op = ""; fragments = [] }

-- A text that goes out, unless nothing of it is left.
abbrev pub sent : FragmentKind → String → List DsEvent
sent kind sane = if str_is_empty sane then [] else fragment kind sane ∷ []

abbrev pub kind_of : Value → FragmentKind
kind_of f = if is_text "THINK" (and_str (get "type" f)) then think else response

abbrev pub content_of : Value → String
content_of f = sanitize_content (or_text "" (and_str (get "content" f)))

-- The loop that adds whole fragments.
unfoldable pub push_fragments : Fragments → List Value → Fragments × List DsEvent
push_fragments frags [] = (frags, [])
push_fragments frags (f ∷ fs) =
    let (all, evs) = push_fragments (frags ++ ((kind_of f, content_of f) ∷ [])) fs in
    (all, sent (kind_of f) (content_of f) ++ evs)

abbrev pub with_fragments : PatchState → Fragments × List DsEvent → PatchState × List DsEvent
with_fragments st r = (record st { fragments = r.0 }, r.1)

unfoldable pub apply_snapshot : PatchState → Value → PatchState × List DsEvent
unfolding push_fragments
apply_snapshot st resp = elim (and_array (get "fragments" resp)) [
  | none ↦ (st, [])
  | some frags ↦ with_fragments st (push_fragments [] frags)
]

abbrev pub status_event : Option String → List DsEvent
status_event none = []
status_event (some s) =
    if str_eq s "FINISHED"
    then finished (some "stop") ∷ []
    else if str_eq s "INCOMPLETE"
    then finished none ∷ []
    else []

abbrev pub content_event : Option String → List DsEvent
content_event none = []
content_event (some s) = sent response (sanitize_content s)

-- `parse::<isize>().unwrap_or(-1)`, and the slot that it stands for, if it is not below 0.
abbrev pub slot_for : ℕ → Option ℤ → Option ℕ
slot_for len none = if len == 0 then none else some (len - 1)
slot_for len (some (negsuc n)) = if len == 0 then none else some (len - 1)
slot_for len (some (pos i)) = some i

-- `fragments[slot].1.push_str(text)`.
unfoldable pub push_at : ℕ → String → Fragments → Fragments
push_at i text [] = []
push_at zero text ((kind, s) ∷ fs) = (kind, str_append s text) ∷ fs
push_at (suc i) text (f ∷ fs) = f ∷ push_at i text fs

unfoldable pub append_at : PatchState → ℕ → String → PatchState × List DsEvent
unfolding push_at sanitize_content
append_at st slot content = elim (get_elem? st.fragments slot) [
  | none ↦ (st, [])
  | some (kind, text) ↦
      let sane = sanitize_content content in
      (record st { fragments = push_at slot sane st.fragments }, sent kind sane)
]

unfoldable pub append_content : PatchState → String → Option String → PatchState × List DsEvent
unfolding append_at parse_i64
append_content st idx_s none = (st, [])
append_content st idx_s (some content) =
    elim (slot_for (length st.fragments) (parse_i64 (codes idx_s))) [
      | none ↦ (st, [])
      | some slot ↦ append_at st slot content
    ]

-- The last case of a path, `response/fragments/<index>/content`.
unfoldable pub apply_increment : PatchState → String → Value → PatchState × List DsEvent
unfolding append_content strip_prefix strip_suffix
apply_increment st path v = elim (strip_prefix "response/fragments/" path) [
  | none ↦ (st, [])
  | some rest ↦ elim (strip_suffix "/content" rest) [
    | none ↦ (st, [])
    | some idx_s ↦ append_content st idx_s (as_str v)
  ]
]

abbrev pub trim_slashes : String → String
trim_slashes s = skip_while (λ c. c == b'/') s

-- A path without slashes in front.
unfoldable pub apply_patch_to : PatchState → String → String → Value → PatchState × List DsEvent
unfolding push_fragments apply_increment
apply_patch_to st path op v =
    if starts_with path "response/status"
    then (st, status_event (as_str v))
    else if str_eq path "response/content"
    then (st, content_event (as_str v))
    else if starts_with path "response/thinking_elapsed_secs"
        || starts_with path "response/accumulated_token_usage"
    then (st, [])
    else if str_eq path "response/fragments" && str_eq op "APPEND"
    then with_fragments st (push_fragments st.fragments (or_empty (as_array v)))
    else apply_increment st path v

unfoldable pub apply_patch_at : PatchState → String → String → Value → PatchState × List DsEvent
unfolding apply_patch_to skip_while
apply_patch_at st path op v = apply_patch_to st (trim_slashes path) op v

abbrev pub full_path : String → String → String
full_path path child =
    if str_is_empty child
    then path
    else if starts_with child "/" || starts_with child "response/"
    then trim_slashes child
    else str_append path (str_append "/" child)

-- The children of a `BATCH`.
unfoldable pub apply_batch : PatchState → String → List Value → PatchState × List DsEvent
unfolding apply_patch_at
apply_batch st path [] = (st, [])
apply_batch st path (item ∷ rest) =
    let full = full_path path (or_text "" (and_str (get "p" item))) in
    let op = or_text "SET" (and_str (get "o" item)) in
    let (st', evs) = apply_patch_at st full op (index item "v") in
    let (st'', more) = apply_batch st' path rest in (st'', evs ++ more)

-- The path and the operation stay until an event names others.
abbrev pub remember : PatchState → Value → PatchState
remember st json = record st {
  path = or_text st.path (and_str (get "p" json));
  op = or_text st.op (and_str (get "o" json));
}

-- A value before any path: a snapshot, or a piece of the answer.
abbrev pub apply_first : PatchState → Value → PatchState × List DsEvent
apply_first st v = elim (get "response" v) [
  | some resp ↦ apply_snapshot st resp
  | none ↦ (st, content_event (as_str v))
]

unfoldable pub apply_value : PatchState → Value → PatchState × List DsEvent
unfolding apply_snapshot apply_batch apply_patch_at
apply_value st v =
    if str_is_empty st.path
    then apply_first st v
    else if str_eq st.op "BATCH"
    then apply_batch st st.path (or_empty (as_array v))
    else apply_patch_at st st.path st.op v

unfoldable pub apply_patch : PatchState → Value → PatchState × List DsEvent
unfolding apply_value
apply_patch st json = elim (get "v" json) [
  | none ↦ (remember st json, [])
  | some v ↦ apply_value (remember st json) v
]
