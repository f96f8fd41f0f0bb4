-- ===== src/Gateway/Stream/Endings.antt =====
-- src/gateway/sse.rs: lines with their ends.
use aqua_rust.Common.{
  ℕ, zero, suc, String, Bool, false, some, List, [], ◌∷◌, ◌≡◌, ◌≢◌, refl, ap, sym, ◌∙◌, arith,
  Option-cases, Bool-cases, inl, inr, eq_iff, All,
}
use aqua_rust.Common.Texts.{drop_chars, strip_prefix}
use aqua_rust.Gateway.Stream.{
  Input, Proxy, Turn, eof, failure, go_on, line, on_line, on_tick, proxy_from, proxy_turn, return,
  stream_proxy, tick,
}
use Prim.Native.Char.{code}
use Prim.Native.String.{◌++◌ as str_append}
use text.Mathlib.TextLemmas.{cons-append, nil-append}
use text.Mathlib.Text.{◌==◌ as str_eq}

-- The number of the last character, or `n` if there is none.
abbrev last_of : ℕ → String → ℕ
last_of n String.[] = n
last_of n (String.◌∷◌ c s) = last_of (code c) s

last_of-append : (n : ℕ) (t : String) → last_of n (str_append t "\n") ≡ 10
last_of-append n String.[] = ap (last_of n) (nil-append "\n")
last_of-append n (String.◌∷◌ c t) =
    ap (last_of n) (cons-append c t "\n") ∙ last_of-append (code c) t

last_of-drop_chars :
    (k n m : ℕ) (s : String) → drop_chars k s ≢ "" → last_of m (drop_chars k s) ≡ last_of n s
unfolding drop_chars
last_of-drop_chars zero n m String.[] h = absurd (h refl)
last_of-drop_chars zero n m (String.◌∷◌ c s) h = refl
last_of-drop_chars (suc k) n m String.[] h = absurd (h refl)
last_of-drop_chars (suc k) n m (String.◌∷◌ c s) h = last_of-drop_chars k (code c) m s h

-- The line has its end.
abbrev pub HasEnd : Input → Type 0
HasEnd (line now s) = (t : String) × (s ≡ str_append t "\n")
HasEnd (tick now) = Unit
HasEnd eof = Unit
HasEnd failure = Unit

-- No such line is taken for the end of a stream.
strip_prefix-ne-done :
    (s t chunk : String)
    → s ≡ str_append t "\n"
    → strip_prefix "data: " s ≡ some chunk
    → str_eq chunk "[DONE]" ≡ false
unfolding strip_prefix
strip_prefix-ne-done s t chunk e h = elim (Bool-cases (str_eq chunk "[DONE]")) [
  | inr n ↦ n
  | inl d ↦
      let is_done : chunk ≡ "[DONE]" = (eq_iff chunk "[DONE]").0 d in
      let dropped : drop_chars 6 s ≡ "[DONE]" = ground (arith, h, is_done) in
      let nonempty : drop_chars 6 s ≢ "" =
        λ z. absurd (omega (arith, ap (last_of 0) (sym z ∙ dropped))) in
      let last = last_of-drop_chars 6 0 0 s nonempty in
      absurd (omega (arith, last, ap (last_of 0) dropped, ap (last_of 0) e, last_of-append 0 t))
]

abbrev Uncompleted : Turn → Type 0
Uncompleted (return q) = q.completed ≡ false
Uncompleted (go_on q) = q.completed ≡ false

on_line-Uncompleted :
    (now : ℕ) (s t : String) (p : Proxy)
    → s ≡ str_append t "\n"
    → p.completed ≡ false
    → Uncompleted (on_line now s p)
unfolding on_line
on_line-Uncompleted now s t p e h = elim (Option-cases (strip_prefix "data: " s)) [
  | inl n ↦ ground (arith, n)
  | inr (chunk, c) ↦ ground (arith, c, strip_prefix-ne-done s t chunk e c)
]

proxy_turn-Uncompleted :
    (i : Input) (p : Proxy) → HasEnd i → p.completed ≡ false → Uncompleted (proxy_turn i p)
unfolding proxy_turn on_tick
proxy_turn-Uncompleted (line now s) p (t, e) h = on_line-Uncompleted now s t p e h
proxy_turn-Uncompleted (tick now) p l h = ground arith
proxy_turn-Uncompleted eof p l h = ground arith
proxy_turn-Uncompleted failure p l h = ground arith

after_turn :
    (t : Turn) (rest : Proxy → Proxy)
    → Uncompleted t
    → ((q : Proxy) → q.completed ≡ false → (rest q).completed ≡ false)
    → (elim t as (λ x. Proxy) [ return q ↦ q | go_on q ↦ rest q ]).completed ≡ false
after_turn (return q) rest h k = h
after_turn (go_on q) rest h k = k q h

proxy_from-Uncompleted :
    (p : Proxy) (is : List Input)
    → All HasEnd is
    → p.completed ≡ false
    → (proxy_from p is).completed ≡ false
unfolding proxy_from
proxy_from-Uncompleted p [] l h = h
proxy_from-Uncompleted p (i ∷ is) l h =
    after_turn (proxy_turn i p) (λ q. proxy_from q is) (proxy_turn-Uncompleted i p l.0 h)
      (λ q k. proxy_from-Uncompleted q is l.1 k)

-- A stream whose every line has its line feed, the line with the done mark too, is never reported as
-- completed, whatever its lines, its end and the ticks between them are.
pub stream_never_completes :
    (now : ℕ) (committed : Bool) (is : List Input)
    → All HasEnd is
    → (stream_proxy now committed is).completed ≡ false
unfolding stream_proxy
stream_never_completes now committed is l = proxy_from-Uncompleted _ is l refl
