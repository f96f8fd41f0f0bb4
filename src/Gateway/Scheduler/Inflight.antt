-- ===== src/Gateway/Scheduler/Inflight.antt =====
-- The slots of a key: every request that begins gives its slot back when it ends.
use aqua_rust.Common.{
  map, All, ◌≤◌, refl, ℕ, ◌+◌, ◌-◌, ◌<◌, ◌≡◌, String, Option, none, some, insert, List, [], ◌∷◌,
  lookup, lookup-insert, u64, if◌then◌else◌, arith, is_same, Option-cases, inl, inr,
}
use aqua_rust.Gateway.Floats.{Floats}
use aqua_rust.Gateway.Scheduler.{
  Scheduler, BucketState, UpstreamKey, bucket_of, default, begin_request, end_request,
  load_active_keys, decrypt_upstream_key,
}

-- The begin or the end of a request, by the id of its key, with the time of a begin.
pub data Turn : Type 0 where
  begins : String → ℕ → Turn
  ends : String → Turn

-- The begins of one key, and its ends.
abbrev pub begun : String → List Turn → ℕ
begun id [] = 0
begun id (begins k now ∷ ts) = (if is_same k id then 1 else 0) + begun id ts
begun id (ends k ∷ ts) = begun id ts

abbrev pub ended : String → List Turn → ℕ
ended id [] = 0
ended id (begins k now ∷ ts) = ended id ts
ended id (ends k ∷ ts) = (if is_same k id then 1 else 0) + ended id ts

-- What has happened so far, at each time.
abbrev pub prefixes : List Turn → List (List Turn)
prefixes [] = [] ∷ []
prefixes (t ∷ ts) = [] ∷ map (λ p. t ∷ p) (prefixes ts)

-- From `n` open requests of a key: no more have ended than have begun, and those that are open are
-- fewer than 2 ^ 64.
abbrev pub Matched : String → ℕ → List Turn → Type 0
Matched id n p =
    (ended id p ≤ n + begun id p) × (n + begun id p < ended id p + 18446744073709551616)

All-prefixes :
    (P Q : List Turn → Type 0) (t : Turn) (ps : List (List Turn))
    → ((p : List Turn) → P (t ∷ p) → Q p)
    → All P (map (λ p. t ∷ p) ps)
    → All Q ps
All-prefixes P Q t [] f h = tt
All-prefixes P Q t (p ∷ ps) f h = (f p h.0, All-prefixes P Q t ps f h.1)

All-prefixes_head : (P : List Turn → Type 0) (ts : List Turn) → All P (prefixes ts) → P []
All-prefixes_head P [] h = h.0
All-prefixes_head P (t ∷ ts) h = h.0

begun-cons :
    (id : String) (t : Turn) (ts : List Turn) → begun id (t ∷ ts) ≡ begun id (t ∷ []) + begun id ts
begun-cons id (begins k now) ts = ground arith
begun-cons id (ends k) ts = omega arith

ended-cons :
    (id : String) (t : Turn) (ts : List Turn) → ended id (t ∷ ts) ≡ ended id (t ∷ []) + ended id ts
ended-cons id (begins k now) ts = omega arith
ended-cons id (ends k) ts = ground arith

-- The events behind one that has changed the count.
Matched-cons :
    (id : String) (n m : ℕ) (t : Turn) (p : List Turn)
    → m + ended id (t ∷ []) ≡ n + begun id (t ∷ [])
    → Matched id n (t ∷ p)
    → Matched id m p
Matched-cons id n m t p e (l, h) = (
  omega (arith, e, l, begun-cons id t p, ended-cons id t p),
  omega (arith, e, h, begun-cons id t p, ended-cons id t p),
)

module _ ⦃f : Floats⦄ where
  open f use {F}

  abbrev pub take_turn : Turn → Scheduler F → Scheduler F
  take_turn (begins id now) s = begin_request id now s
  take_turn (ends id) s = end_request id s

  unfoldable pub take_turns : List Turn → Scheduler F → Scheduler F
  take_turns [] s = s
  take_turns (t ∷ ts) s = take_turns ts (take_turn t s)

  unfoldable pub inflight : String → Scheduler F → ℕ
  inflight id s = elim (lookup id s.buckets) [ none ↦ 0 | some b ↦ b.inflight ]

  pub begin_inflight :
      (k id : String) (now : ℕ) (s : Scheduler F)
      → (if is_same k id then inflight id s + 1 else 0) < 18446744073709551616
      → inflight id (begin_request k now s)
        ≡ (if is_same k id then inflight id s + 1 else inflight id s)
  unfolding inflight begin_request default
  begin_inflight k id now s h =
      let b = bucket_of k now s in
      ground (arith, lookup-insert k id (record b { inflight = u64 (b.inflight + 1) }) s.buckets)

  pub end_inflight :
      (k id : String) (s : Scheduler F)
      → inflight id (end_request k s) ≡ (if is_same k id then inflight id s - 1 else inflight id s)
  unfolding inflight end_request
  end_inflight k id s = elim (Option-cases (lookup k s.buckets)) [
    | inl e ↦ rw (e, end_request) (ground arith)
    | inr (b, e) ↦
        rw (e, end_request)
          (ground (arith, lookup-insert k id (record b { inflight = b.inflight - 1 }) s.buckets))
  ]

  take_turn-balance :
      (id : String) (t : Turn) (s : Scheduler F)
      → Matched id (inflight id s) (t ∷ [])
      → inflight id (take_turn t s) + ended id (t ∷ []) ≡ inflight id s + begun id (t ∷ [])
  take_turn-balance id (begins k now) s m = ground (arith, m, begin_inflight k id now s)
  take_turn-balance id (ends k) s m = ground (arith, m, end_inflight k id s)

  -- The count of a key has grown by the begins of its requests and fallen by their ends, whatever
  -- order the begins and ends of all keys come in; other keys do not touch it. No more requests of
  -- the key are to end than have begun at any time, and fewer than 2 ^ 64 of them to be open.
  pub inflight_counts :
      (id : String) (ts : List Turn) (s : Scheduler F)
      → All (Matched id (inflight id s)) (prefixes ts)
      → inflight id (take_turns ts s) + ended id ts ≡ inflight id s + begun id ts
  unfolding take_turns
  inflight_counts id [] s h = refl
  inflight_counts id (t ∷ ts) s h =
      let n = inflight id s in
      let later =
        All-prefixes (Matched id n) (λ p. Matched id n (t ∷ p)) t (prefixes ts) (λ p m. m) h.1 in
      let e = take_turn-balance id t s (All-prefixes_head (λ p. Matched id n (t ∷ p)) ts later) in
      let rest = inflight_counts id ts (take_turn t s) (
        All-prefixes (Matched id n) (Matched id (inflight id (take_turn t s))) t (prefixes ts)
          (λ p. Matched-cons id n (inflight id (take_turn t s)) t p e) h.1) in
      omega (arith, e, rest, begun-cons id t ts, ended-cons id t ts)

  module _ (id : String) where
    -- A bucket that is written back with its slots.
    pub rebucketed :
        (k : String) (now : ℕ) (b : BucketState F) (s s' : Scheduler F)
        → s'.buckets ≡ insert k b s.buckets
        → b.inflight ≡ (bucket_of k now s).inflight
        → inflight id s' ≡ inflight id s
    unfolding inflight default
    rebucketed k now b s s' e h = ground (arith, lookup-insert k id b s.buckets)

    pub load-inflight :
        (now : ℕ) (fetched : Option (List UpstreamKey)) (s : Scheduler F)
        → inflight id (load_active_keys now fetched s).0 ≡ inflight id s
    unfolding load_active_keys inflight
    load-inflight now none s = ground arith
    load-inflight now (some rows) s = ground arith

    pub decrypt-inflight :
        (decrypt : String → Option String) (now : ℕ) (k : UpstreamKey) (s : Scheduler F)
        → inflight id (decrypt_upstream_key decrypt now k s).0 ≡ inflight id s
    unfolding decrypt_upstream_key inflight
    decrypt-inflight decrypt now k s = ground arith
