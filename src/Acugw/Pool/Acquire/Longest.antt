-- ===== src/Acugw/Pool/Acquire/Longest.antt =====
-- acugw/src/pool.rs: which account `acquire` takes.
use aqua_rust.Common.{
  ℕ, zero, suc, secs, ◌&&◌, ◌+◌, ◌-◌, ◌≤◌, ◌≡◌, refl, sym, subst, ap, true, false, Option, none,
  some, List, [], ◌∷◌, Memᴰ, All, All-map, All-filter, All-filter_mem, All-sort_by, All-Memᴰ,
  Memᴰ-filter, Memᴰ-sort_by, Falling, sort_by-Falling, filter, get_elem?, All-get_elem?, arith,
  Bool-cases, inl, inr, ltb,
}
use aqua_rust.Acugw.Pool.{Account, AccountPool, interval_ok, st_busy, claim, elapsed_secs, st_idle}
use aqua_rust.Acugw.Pool.Acquire.{
  Round, acquire, got, candidates, indexed, is_free, nearest, heal_all, claim_at, throttle_of,
  i64_max, idle_key, before, closer,
}

-- A place holds an account.
abbrev pub At : List Account → ℕ × Account → Type 0
At xs x = get_elem? xs x.0 ≡ some x.1

indexed-mem :
    (k j : ℕ) (a : Account) (xs : List Account)
    → get_elem? xs j ≡ some a
    → Memᴰ (k + j, a) (indexed k xs)
unfolding indexed
indexed-mem k j a [] h = absurd (cc)
indexed-mem k zero a (b ∷ xs) h = Memᴰ.head (ground (arith, h))
indexed-mem k (suc j) a (b ∷ xs) h =
    subst (λ n. Memᴰ (n, a) (indexed k (b ∷ xs))) (omega arith)
      (Memᴰ.tail (indexed-mem (k + 1) j a xs h))

-- The place of an entry, past those before.
Placed : ℕ → List Account → ℕ × Account → Type 0
Placed k xs x = (n : ℕ) × (x.0 ≡ k + n) × (get_elem? xs n ≡ some x.1)

indexed-Placed : (k : ℕ) (xs : List Account) → All (Placed k xs) (indexed k xs)
unfolding indexed Placed
indexed-Placed k [] = tt
indexed-Placed k (b ∷ xs) = (
  (0, omega arith, refl),
  All-map (Placed (k + 1) xs) (Placed k (b ∷ xs)) (indexed (k + 1) xs)
      (λ x q. (suc q.0, omega (arith, q.1), q.2)) (indexed-Placed (k + 1) xs),
)

pub candidates-At : (now : ℕ) (xs : List Account) → All (At xs) (candidates now xs)
unfolding candidates Placed
candidates-At now xs = All-sort_by (At xs) before (filter (λ x. is_free now x.1) (indexed 0 xs)) (
    All-filter (At xs) (λ x. is_free now x.1) (indexed 0 xs)
      (All-map (Placed 0 xs) (At xs) (indexed 0 xs)
        (λ x q. subst (λ n. get_elem? xs n ≡ some x.1) (omega (arith, q.1)) q.2)
        (indexed-Placed 0 xs)))

pub candidates-free :
    (now : ℕ) (xs : List Account) → All (λ x. is_free now x.1 ≡ true) (candidates now xs)
unfolding candidates
candidates-free now xs =
    All-sort_by (λ x. is_free now x.1 ≡ true) before (filter (λ x. is_free now x.1) (indexed 0 xs))
      (All-map (λ x. Memᴰ x (indexed 0 xs) × (is_free now x.1 ≡ true)) (λ x. is_free now x.1 ≡ true)
        (filter (λ x. is_free now x.1) (indexed 0 xs)) (λ x q. q.1)
        (All-filter_mem (λ x. is_free now x.1) (indexed 0 xs)))

-- The first candidate that needs no wait has the largest key of those.
nearest-first :
    (now throttle j : ℕ) (a : Account) (best : Option (ℕ × ℕ)) (xs : List (ℕ × Account))
    → Falling (λ x. idle_key x.1) xs
    → Memᴰ (j, a) xs
    → interval_ok now throttle a ≡ true
    → (x : ℕ × Account) × (nearest now throttle best xs ≡ some (0, x.0))
      × Memᴰ x xs
      × (interval_ok now throttle x.1 ≡ true)
      × (idle_key a ≤ idle_key x.1)
unfolding nearest
nearest-first now throttle j a best [] f m h = elim m [ ]
nearest-first now throttle j a best ((i, b) ∷ xs) f m h =
    elim (Bool-cases (interval_ok now throttle b)) [
      | inl e ↦ (
        (i, b),
        ground arith,
        Memᴰ.head refl,
        e,
        (elim m [
          | Memᴰ.head q ↦ omega (arith, ap (λ x. idle_key x.1) q)
          | Memᴰ.tail n ↦ All-Memᴰ (λ y. idle_key y.1 ≤ idle_key b) xs (j, a) f.0 n
        ]),
      )
      | inr e ↦ elim m [
        | Memᴰ.head q ↦ absurd (cc (ap (λ x. interval_ok now throttle x.1) q))
        | Memᴰ.tail n ↦
            let (x, eq, mem, ok, le) =
              nearest-first now throttle j a
                (closer (throttle - elapsed_secs now b.last_used) i best) xs f.1 n h in
            (x, ground (arith, eq), Memᴰ.tail mem, ok, le)
      ]
    ]

claim-idle :
    (now : ℕ) (a : Account)
    → a.state ≡ st_idle
    → claim now a ≡ some (record a { state = st_busy; last_used = now })
unfolding claim
claim-idle now a e = ground arith

claim_at-first :
    (now : ℕ) (a b : Account) (xs : List Account)
    → claim now a ≡ some b
    → claim_at now zero (a ∷ xs) ≡ some (b ∷ xs)
unfolding claim_at
claim_at-first now a b xs h = rw (h, claim_at) refl

pub claim_at-claimed :
    (now i : ℕ) (a : Account) (xs : List Account)
    → get_elem? xs i ≡ some a
    → a.state ≡ st_idle
    → (ys : List Account) × (claim_at now i xs ≡ some ys)
      × (get_elem? ys i ≡ some (record a { state = st_busy; last_used = now }))
unfolding claim_at
claim_at-claimed now i a [] h e = absurd (cc)
claim_at-claimed now zero a (b ∷ xs) h e =
    let same : b ≡ a = cc in
    (
      record a { state = st_busy; last_used = now } ∷ xs,
      rw same (claim_at-first now a _ xs (claim-idle now a e)),
      refl,
    )
claim_at-claimed now (suc i) a (b ∷ xs) h e =
    let (ys, eq, at) = claim_at-claimed now i a xs h e in (b ∷ ys, rw eq refl, at)

-- An account that is idle, out of cooldown and past the interval.
IsReady : ℕ → ℕ → Account → Type 0
IsReady now throttle a = (is_free now a ≡ true) × (interval_ok now throttle a ≡ true)

-- The account that the choice falls on, when one is ready.
choice :
    (now throttle j : ℕ) (a : Account) (xs : List Account)
    → At xs (j, a)
    → IsReady now throttle a
    → (x : ℕ × Account) × (nearest now throttle none (candidates now xs) ≡ some (0, x.0))
      × At xs x
      × IsReady now throttle x.1
      × (idle_key a ≤ idle_key x.1)
unfolding IsReady candidates
choice now throttle j a xs at ready =
    let found = filter (λ x. is_free now x.1) (indexed 0 xs) in
    let mem : Memᴰ (j, a) (candidates now xs) =
      Memᴰ-sort_by before (j, a) found
        (Memᴰ-filter (λ x. is_free now x.1) (indexed 0 xs) (j, a)
          (subst (λ n. Memᴰ (n, a) (indexed 0 xs)) (omega arith) (indexed-mem 0 j a xs at))
          ready.0) in
    let (x, eq, mem', ok, le) =
      nearest-first now throttle j a none (candidates now xs)
        (sort_by-Falling (λ x. idle_key x.1) found) mem ready.1 in
    (
      x,
      eq,
      All-Memᴰ (At xs) (candidates now xs) x (candidates-At now xs) mem',
      (
        All-Memᴰ (λ y. is_free now y.1 ≡ true) (candidates now xs) x (candidates-free now xs) mem',
        ok,
      ),
      le,
    )

pub acquire-claims :
    (deadline w i : ℕ) (r : Round) (rounds : List Round) (p : AccountPool) (ys : List Account)
    → nearest r.now (throttle_of p r) none (candidates r.now (heal_all r.now p.accounts))
      ≡ some (w, i)
    → (ltb 0 w && ltb deadline (r.now + secs w)) ≡ false
    → claim_at r.woken i (r.others (heal_all r.now p.accounts)) ≡ some ys
    → acquire deadline (r ∷ rounds) p ≡ (record p { accounts = ys }, got i)
unfolding acquire
acquire-claims deadline w i r rounds p ys e l c = rw (e, l, c, acquire) refl

-- Where some account is idle, out of cooldown and past the interval of the round and no other task
-- comes between, the round takes such an account, of these the one that was released the longest
-- ago, marks it as busy and notes its use. The releases are times that an `i64` holds.
pub acquire_longest_idle :
    (deadline j : ℕ) (r : Round) (rounds : List Round) (p : AccountPool) (a : Account)
    → ((xs : List Account) → r.others xs ≡ xs)
    → All (λ x. x.last_released ≤ i64_max) (heal_all r.now p.accounts)
    → get_elem? (heal_all r.now p.accounts) j ≡ some a
    → is_free r.now a ≡ true
    → interval_ok r.now (throttle_of p r) a ≡ true
    → (i : ℕ) × (b : Account) × ((acquire deadline (r ∷ rounds) p).1 ≡ got i)
      × (get_elem? (heal_all r.now p.accounts) i ≡ some b)
      × (is_free r.now b ≡ true)
      × (interval_ok r.now (throttle_of p r) b ≡ true)
      × (b.last_released ≤ a.last_released)
      × (get_elem? (acquire deadline (r ∷ rounds) p).0.accounts i
          ≡ some (record b { state = st_busy; last_used = r.woken }))
unfolding IsReady
acquire_longest_idle deadline j r rounds p a alone small at free rested =
    let healed = heal_all r.now p.accounts in
    let (x, eq, atx, (freex, restedx), le) =
      choice r.now (throttle_of p r) j a healed at (free, rested) in
    let (ys, claimed, busy) = claim_at-claimed r.woken x.0 x.1 healed atx (ground (arith, freex)) in
    let taken : acquire deadline (r ∷ rounds) p ≡ (record p { accounts = ys }, got x.0) =
      acquire-claims deadline 0 x.0 r rounds p ys eq refl (rw (alone healed) claimed) in
    let smallx : x.1.last_released ≤ i64_max =
      All-get_elem? (λ y. y.last_released ≤ i64_max) healed x.0 small atx in
    let smalla : a.last_released ≤ i64_max =
      All-get_elem? (λ y. y.last_released ≤ i64_max) healed j small at in
    (
      x.0,
      x.1,
      ap (λ y. y.1) taken,
      atx,
      freex,
      restedx,
      omega (arith, le, smallx, smalla),
      subst
          (λ y.
            get_elem? y.0.accounts x.0 ≡ some (record x.1 { state = st_busy; last_used = r.woken }))
          (sym taken) busy,
    )
