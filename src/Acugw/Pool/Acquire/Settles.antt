-- ===== src/Acugw/Pool/Acquire/Settles.antt =====
-- acugw/src/pool.rs: `acquire` ends, when no other task takes the account that it has chosen.
use aqua_rust.Common.{
  ℕ, ◌+◌, ◌-◌, ◌<◌, ◌≡◌, ◌≢◌, refl, sym, subst, ap, true, false, ◌&&◌, Option, none, some, List, [],
  ◌∷◌, ◌++◌, All, arith, Bool-cases, Option-cases, inl, inr, ltb, secs,
}
use aqua_rust.Acugw.Pool.{Account, AccountPool, interval_ok, elapsed_secs}
use aqua_rust.Acugw.Pool.Acquire.{
  Round, acquire, pool_busy, pool_empty, still_waiting, candidates, nearest, heal_all, claim_at,
  throttle_of, closer, is_free,
}
use aqua_rust.Acugw.Pool.Acquire.Longest.{
  At, candidates-At, candidates-free, claim_at-claimed, acquire-claims,
}

-- An account of the list that a choice may fall on.
Eligible : List Account → ℕ → ℕ → Type 0
Eligible xs now i = (a : Account) × At xs (i, a) × (is_free now a ≡ true)

-- What the choice falls on is eligible.
SomeEligible : List Account → ℕ → Option (ℕ × ℕ) → Type 0
SomeEligible xs now none = Unit
SomeEligible xs now (some (w, i)) = Eligible xs now i

closer-Eligible :
    (xs : List Account) (now w i : ℕ) (best : Option (ℕ × ℕ))
    → Eligible xs now i
    → SomeEligible xs now best
    → SomeEligible xs now (closer w i best)
unfolding SomeEligible
closer-Eligible xs now w i none e b = e
closer-Eligible xs now w i (some (v, j)) e b = elim (Bool-cases (ltb w v)) [
  | inl h ↦ rw h e
  | inr h ↦ rw h b
]

nearest-Eligible :
    (xs : List Account) (now throttle : ℕ) (best : Option (ℕ × ℕ)) (found : List (ℕ × Account))
    → SomeEligible xs now best
    → All (λ x. At xs x) found
    → All (λ x. is_free now x.1 ≡ true) found
    → SomeEligible xs now (nearest now throttle best found)
unfolding nearest Eligible SomeEligible
nearest-Eligible xs now throttle best [] b f g = b
nearest-Eligible xs now throttle best ((i, a) ∷ found) b f g =
    elim (Bool-cases (interval_ok now throttle a)) [
      | inl h ↦ rw h (a, f.0, g.0)
      | inr h ↦ rw h (
          nearest-Eligible xs now throttle (closer (throttle - elapsed_secs now a.last_used) i best)
            found
            (closer-Eligible xs now (throttle - elapsed_secs now a.last_used) i best (a, f.0, g.0)
              b)
            f.1 g.1)
    ]

-- The choice of a round.
chosen : AccountPool → Round → Option (ℕ × ℕ)
chosen p r = nearest r.now (throttle_of p r) none (candidates r.now (heal_all r.now p.accounts))

acquire-refuses :
    (deadline w i : ℕ) (r : Round) (rounds : List Round) (p : AccountPool)
    → chosen p r ≡ some (w, i)
    → (ltb 0 w && ltb deadline (r.now + secs w)) ≡ true
    → (acquire deadline (r ∷ rounds) p).1 ≡ pool_busy
unfolding acquire chosen
acquire-refuses deadline w i r rounds p e l = rw (e, l, acquire) refl

acquire-gives_up :
    (deadline : ℕ) (r : Round) (rounds : List Round) (p : AccountPool)
    → chosen p r ≡ none
    → ltb deadline r.now ≡ true
    → (acquire deadline (r ∷ rounds) p).1 ≡ pool_empty
unfolding acquire chosen
acquire-gives_up deadline r rounds p e l = rw (e, l, acquire) refl

acquire-retries :
    (deadline : ℕ) (r : Round) (rounds : List Round) (p : AccountPool)
    → chosen p r ≡ none
    → ltb deadline r.now ≡ false
    → acquire deadline (r ∷ rounds) p
      ≡ acquire deadline rounds (record p { accounts = r.others (heal_all r.now p.accounts) })
unfolding acquire chosen
acquire-retries deadline r rounds p e l = rw (e, l, acquire) refl

chosen-Eligible :
    (p : AccountPool) (r : Round) → SomeEligible (heal_all r.now p.accounts) r.now (chosen p r)
unfolding chosen SomeEligible
chosen-Eligible p r =
    let healed = heal_all r.now p.accounts in
    nearest-Eligible healed r.now (throttle_of p r) none (candidates r.now healed) tt
      (candidates-At r.now healed) (candidates-free r.now healed)

-- A round with a choice ends the loop.
settles_by_choice :
    (deadline w i : ℕ) (r : Round) (rounds : List Round) (p : AccountPool)
    → ((xs : List Account) → r.others xs ≡ xs)
    → chosen p r ≡ some (w, i)
    → (acquire deadline (r ∷ rounds) p).1 ≢ still_waiting
unfolding chosen SomeEligible Eligible
settles_by_choice deadline w i r rounds p alone e =
    let (a, at, free) =
      subst (SomeEligible (heal_all r.now p.accounts) r.now) e (chosen-Eligible p r) in
    let (ys, claimed, busy) =
      claim_at-claimed r.woken i a (heal_all r.now p.accounts) at (ground (arith, free)) in
    elim (Bool-cases (ltb 0 w && ltb deadline (r.now + secs w))) [
      | inl l ↦ λ q. cc (acquire-refuses deadline w i r rounds p e l)
      | inr l ↦ λ q. cc (
          ap (λ x. x.1)
            (acquire-claims deadline w i r rounds p ys e l (
              subst (λ zs. claim_at r.woken i zs ≡ some ys)
                (sym (alone (heal_all r.now p.accounts))) claimed)))
    ]

-- Where no other task acts in its rounds and the last of them is past the deadline, `acquire`
-- ends, with a guard or with one of its two errors.
pub acquire_settles :
    (deadline : ℕ) (rounds : List Round) (last : Round) (p : AccountPool)
    → All (λ r. (xs : List Account) → r.others xs ≡ xs) rounds
    → ((xs : List Account) → last.others xs ≡ xs)
    → deadline < last.now
    → (acquire deadline (rounds ++ last ∷ []) p).1 ≢ still_waiting
acquire_settles deadline [] last p alone alone' late = elim (Option-cases (chosen p last)) [
  | inr ((w, i), e) ↦ settles_by_choice deadline w i last [] p alone' e
  | inl e ↦ λ q. cc (acquire-gives_up deadline last [] p e (ground arith))
]
acquire_settles deadline (r ∷ rounds) last p alone alone' late = elim (Option-cases (chosen p r)) [
  | inr ((w, i), e) ↦ settles_by_choice deadline w i r (rounds ++ last ∷ []) p alone.0 e
  | inl e ↦ elim (Bool-cases (ltb deadline r.now)) [
    | inl l ↦ λ q. cc (acquire-gives_up deadline r (rounds ++ last ∷ []) p e l)
    | inr l ↦
        subst (λ x. x.1 ≢ still_waiting)
          (sym (acquire-retries deadline r (rounds ++ last ∷ []) p e l))
          (acquire_settles deadline rounds last
            (record p { accounts = r.others (heal_all r.now p.accounts) }) alone.1 alone' late)
  ]
]
