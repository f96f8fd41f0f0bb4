-- ===== src/Acugw/Pool/Acquire.antt =====
-- acugw/src/pool.rs: `acquire`, the choice of an account. Each round of its loop reads the clock,
-- may sleep, and reads it again; what other tasks do to the accounts between is a function. The
-- rounds are a list: the loop itself has no bound while others win the claim.
pub mod Longest
pub mod Settles
use aqua_rust.Common.{
  ℕ, zero, suc, ◌+◌, ◌-◌, Bool, true, false, not, ◌&&◌, Option, none, some, List, [], ◌∷◌, map,
  filter, ltb, leb, ◌==◌, if◌then◌else◌, secs, sort_by, get_elem?,
}
use aqua_rust.Acugw.Pool.{
  Account, AccountPool, st_idle, in_cooldown, interval_ok, elapsed_secs, heal_if_cooled, claim,
}

abbrev pub i64_max : ℕ
i64_max = 9223372036854775807

-- The accounts with their places.
unfoldable pub indexed : ℕ → List Account → List (ℕ × Account)
indexed i [] = []
indexed i (a ∷ accounts) = (i, a) ∷ indexed (i + 1) accounts

abbrev pub is_free : ℕ → Account → Bool
is_free now a = (a.state == st_idle) && not (in_cooldown now a)

-- The first part of a candidate.
abbrev pub idle_key : Account → ℕ
idle_key a = i64_max - a.last_released

abbrev pub before : ℕ × Account → ℕ × Account → Bool
before x y = ltb (idle_key y.1) (idle_key x.1)

-- The longest idle first.
unfoldable pub candidates : ℕ → List Account → List (ℕ × Account)
unfolding indexed
candidates now accounts = sort_by before (filter (λ x. is_free now x.1) (indexed 0 accounts))

-- The shorter of two waits, the first of equal ones.
abbrev pub closer : ℕ → ℕ → Option (ℕ × ℕ) → Option (ℕ × ℕ)
closer wait i none = some (wait, i)
closer wait i (some (w, j)) = if ltb wait w then some (wait, i) else some (w, j)

-- The wait and the place of the account to take: the first that needs no wait, and else that of
-- the shortest one.
unfoldable pub nearest : ℕ → ℕ → Option (ℕ × ℕ) → List (ℕ × Account) → Option (ℕ × ℕ)
nearest now throttle best [] = best
nearest now throttle best ((i, a) ∷ rest) =
    if interval_ok now throttle a
    then some (0, i)
    else nearest now throttle (closer (throttle - elapsed_secs now a.last_used) i best) rest

unfoldable pub heal_all : ℕ → List Account → List Account
heal_all now accounts = map (heal_if_cooled now) accounts

-- The claim of the account at a place.
unfoldable pub claim_at : ℕ → ℕ → List Account → Option (List Account)
claim_at now i [] = none
claim_at now zero (a ∷ accounts) = elim (claim now a) [ none ↦ none | some b ↦ some (b ∷ accounts) ]
claim_at now (suc i) (a ∷ accounts) = elim (claim_at now i accounts) [
  | none ↦ none
  | some bs ↦ some (a ∷ bs)
]

-- One round: its time, its draw, the time after its sleep and what others do until then.
pub record Round : Type 0 where
  pub now : ℕ
  pub draw : ℕ → ℕ
  pub woken : ℕ
  pub others : List Account → List Account

-- A guard on the account at a place, the two errors, or no end within the rounds.
pub data Acquired : Type 0 where
  got : ℕ → Acquired
  pool_busy : Acquired
  pool_empty : Acquired
  still_waiting : Acquired

abbrev pub throttle_of : AccountPool → Round → ℕ
throttle_of p r = p.min_interval + r.draw (p.jitter + 1)

unfoldable pub acquire : ℕ → List Round → AccountPool → AccountPool × Acquired
acquire deadline [] p = (p, still_waiting)
acquire deadline (r ∷ rounds) p =
    let healed = heal_all r.now p.accounts in
    let after : AccountPool = record p { accounts = r.others healed } in
    let retried = acquire deadline rounds after in
    elim (nearest r.now (throttle_of p r) none (candidates r.now healed)) [
      | some (wait, i) ↦
          if ltb 0 wait && ltb deadline (r.now + secs wait)
          then (record p { accounts = healed }, pool_busy)
          else elim (claim_at r.woken i after.accounts) [
            | some accounts ↦ (record p { accounts = accounts }, got i)
            | none ↦ retried
          ]
      | none ↦ if ltb deadline r.now then (record p { accounts = healed }, pool_empty) else retried
    ]
