-- ===== src/Gateway/PromptCache/Latest.antt =====
-- src/gateway/prompt_cache.rs: a read gives what was put last, while it lives.
use aqua_rust.Common.{
  ℕ, ◌≤◌, ◌≡◌, refl, ◌∙◌, sym, subst, String, true, false, Option, none, some, List, [], ◌∷◌,
  lookup, insert, remove, retain, lookup-insert_self, lookup-insert_ne, lookup-remove,
  lookup-retain-some, lookup-retain-none, lookup-retain_dropped, Distinct, insert-Distinct,
  remove-Distinct, retain-Distinct, string_discrete, is_same, length, leb, if◌then◌else◌, arith,
  Bool-cases, Option-cases, ◌⊎◌, inl, inr,
}
use aqua_rust.Gateway.PromptCache.{PromptCache, get, put, make_room, is_live, cache_max_entries}

-- A read or a write, with its time.
pub data Op {ℓ} (V : Type ℓ) : Type ℓ where
  gets : String → ℕ → Op V
  puts : String → V → ℕ → Op V

module _ {ℓ} {V : Type ℓ} where
  abbrev pub perform : Op V → PromptCache V → PromptCache V
  perform (gets k t) c = (get V k t c).0
  perform (puts k v t) c = put V k v t c

  unfoldable pub perform_all : List (Op V) → PromptCache V → PromptCache V
  perform_all [] c = c
  perform_all (o ∷ os) c = perform_all os (perform o c)

  -- The last write of a key, from the operations alone.
  abbrev pub written : String → Option (ℕ × V) → Op V → Option (ℕ × V)
  written key before (gets k t) = before
  written key before (puts k v t) = if is_same k key then some (t, v) else before

  abbrev pub last_write : String → Option (ℕ × V) → List (Op V) → Option (ℕ × V)
  last_write key before [] = before
  last_write key before (o ∷ os) = last_write key (written key before o) os

  abbrev pub time_of : Op V → ℕ
  time_of (gets k t) = t
  time_of (puts k v t) = t

  abbrev pub InOrder : ℕ → List (Op V) → ℕ → Type 0
  InOrder now [] end = now ≤ end
  InOrder now (o ∷ os) end = (now ≤ time_of o) × InOrder (time_of o) os end

  -- The value of a write that lives.
  abbrev pub live : ℕ → Option (ℕ × V) → Option V
  live now none = none
  live now (some (t, v)) = if is_live now t then some v else none

  -- The cache holds the last write, or nothing where that is over.
  Agrees : String → ℕ → Option (ℕ × V) → PromptCache V → Type ℓ
  Agrees key now w c =
      Distinct c × ((lookup key c ≡ w) ⊎ ((lookup key c ≡ none) × (live now w ≡ none)))

  later : (now end : ℕ) (w : Option (ℕ × V)) → now ≤ end → live now w ≡ none → live end w ≡ none
  later now end none l e = refl
  later now end (some (t, v)) l e = ground arith

  later-Agrees :
      (key : String) (now end : ℕ) (w : Option (ℕ × V)) (c : PromptCache V)
      → now ≤ end
      → Agrees key now w c
      → Agrees key end w c
  unfolding Agrees
  later-Agrees key now end w c l (d, inl e) = (d, inl e)
  later-Agrees key now end w c l (d, inr (e, x)) = (d, inr (e, later now end w l x))

  retained :
      (key : String) (t : ℕ) (w : Option (ℕ × V)) (c : PromptCache V)
      → Distinct c
      → lookup key c ≡ w
      → Agrees key t w (retain (λ k e. is_live t e.0) c)
  unfolding Agrees
  retained key t none c d e =
      (retain-Distinct _ c d, inl (lookup-retain-none (λ k x. is_live t x.0) key c e))
  retained key t (some (t0, v)) c d e = elim (Bool-cases (is_live t t0)) [
    | inl h ↦
        (retain-Distinct _ c d, inl (lookup-retain-some (λ k x. is_live t x.0) key (t0, v) c e h))
    | inr h ↦ (
      retain-Distinct _ c d,
      inr (lookup-retain_dropped (λ k x. is_live t x.0) key (t0, v) c d e h, rw h refl),
    )
  ]

  make_room-Agrees :
      (key : String) (now t : ℕ) (w : Option (ℕ × V)) (c : PromptCache V)
      → now ≤ t
      → Agrees key now w c
      → Agrees key t w (make_room V t c)
  unfolding Agrees
  make_room-Agrees key now t w c l (d, r) = elim (Bool-cases (leb cache_max_entries (length c))) [
    | inr h ↦ rw h (later-Agrees key now t w c l (d, r))
    | inl h ↦ rw h (elim r [
      | inl e ↦ retained key t w c d e
      | inr x ↦ (
        retain-Distinct _ c d,
        inr (lookup-retain-none (λ k y. is_live t y.0) key c x.0, later now t w l x.1),
      )
    ])
  ]

  put-Agrees :
      (key k : String) (v : V) (now t : ℕ) (w : Option (ℕ × V)) (c : PromptCache V)
      → now ≤ t
      → Agrees key now w c
      → Agrees key t (if is_same k key then some (t, v) else w) (put V k v t c)
  unfolding Agrees put
  put-Agrees key k v now t w c l a =
      let (d, r) = make_room-Agrees key now t w c l a in
      let room = make_room V t c in
      elim (string_discrete k key) [
        | yes p ↦
            let same : is_same k key ≡ true = ground arith in
            rw same (
              insert-Distinct k (t, v) room d,
              inl (
                  subst (λ j. lookup j (insert k (t, v) room) ≡ some (t, v)) p
                    (lookup-insert_self k (t, v) room)),
            )
        | no p ↦
            let other : is_same k key ≡ false = ground arith in
            let kept = lookup-insert_ne k key (t, v) room p in
            rw other (
              insert-Distinct k (t, v) room d,
              elim r [ inl e ↦ inl (kept ∙ e) | inr x ↦ inr (kept ∙ x.0, x.1) ],
            )
      ]

  -- What a read removes is over.
  removed :
      (key k : String) (now t t0 : ℕ) (v : V) (w : Option (ℕ × V)) (c : PromptCache V)
      → now ≤ t
      → lookup k c ≡ some (t0, v)
      → is_live t t0 ≡ false
      → Agrees key now w c
      → Agrees key t w (remove k c)
  unfolding Agrees
  removed key k now t t0 v w c l h g (d, r) = elim (string_discrete k key) [
    | yes p ↦ (
      remove-Distinct k c d,
      inr (
        ground (arith, lookup-remove k key c),
        elim r [
          | inl e ↦
              let own : w ≡ some (t0, v) = sym e ∙ subst (λ j. lookup j c ≡ some (t0, v)) p h in
              subst (λ x. live t x ≡ none) (sym own) (rw g refl)
          | inr x ↦ later now t w l x.1
        ],
      ),
    )
    | no p ↦
        let kept : lookup key (remove k c) ≡ lookup key c = ground (arith, lookup-remove k key c) in
        (
          remove-Distinct k c d,
          elim r [ inl e ↦ inl (kept ∙ e) | inr x ↦ inr (kept ∙ x.0, later now t w l x.1) ],
        )
  ]

  get-Agrees :
      (key k : String) (now t : ℕ) (w : Option (ℕ × V)) (c : PromptCache V)
      → now ≤ t
      → Agrees key now w c
      → Agrees key t w (get V k t c).0
  unfolding get
  get-Agrees key k now t w c l a = elim (Option-cases (lookup k c)) [
    | inl h ↦ rw (h, get) (later-Agrees key now t w c l a)
    | inr ((t0, v), h) ↦ elim (Bool-cases (is_live t t0)) [
      | inl g ↦ rw (h, g, get) (later-Agrees key now t w c l a)
      | inr g ↦ rw (h, g, get) (removed key k now t t0 v w c l h g a)
    ]
  ]

  perform-Agrees :
      (key : String) (now : ℕ) (w : Option (ℕ × V)) (o : Op V) (c : PromptCache V)
      → now ≤ time_of o
      → Agrees key now w c
      → Agrees key (time_of o) (written key w o) (perform o c)
  perform-Agrees key now w (gets k t) c l a = get-Agrees key k now t w c l a
  perform-Agrees key now w (puts k v t) c l a = put-Agrees key k v now t w c l a

  perform_all-Agrees :
      (key : String) (now end : ℕ) (w : Option (ℕ × V)) (os : List (Op V)) (c : PromptCache V)
      → InOrder now os end
      → Agrees key now w c
      → Agrees key end (last_write key w os) (perform_all os c)
  unfolding perform_all
  perform_all-Agrees key now end w [] c i a = later-Agrees key now end w c i a
  perform_all-Agrees key now end w (o ∷ os) c i a =
      perform_all-Agrees key (time_of o) end (written key w o) os (perform o c) i.1
        (perform-Agrees key now w o c i.0 a)

  get-live :
      (key : String) (now : ℕ) (w : Option (ℕ × V)) (c : PromptCache V)
      → Agrees key now w c
      → (get V key now c).1 ≡ live now w
  unfolding get Agrees
  get-live key now none c (d, inl e) = rw (e, get) refl
  get-live key now (some (t, v)) c (d, inl e) = elim (Bool-cases (is_live now t)) [
    | inl h ↦ rw (e, h, get) refl
    | inr h ↦ rw (e, h, get) refl
  ]
  get-live key now w c (d, inr (e, x)) = rw (e, get) (sym x)

  -- From an empty cache on, whatever is read and written in the order of time: a read gives the value
  -- of the last write of its key, and nothing where there is none or it is ten minutes old. The room
  -- that a full cache makes never drops a value that lives.
  pub get_returns_last_write :
      (key : String) (start now : ℕ) (os : List (Op V))
      → InOrder start os now
      → (get V key now (perform_all os [])).1 ≡ live now (last_write key none os)
  unfolding Agrees
  get_returns_last_write key start now os i =
      get-live key now (last_write key none os) (perform_all os [])
        (perform_all-Agrees key start now none os [] i (tt, inl (unfold lookup in refl)))
