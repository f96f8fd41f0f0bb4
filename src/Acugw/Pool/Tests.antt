-- ===== src/Acugw/Pool/Tests.antt =====
-- acugw/src/pool.rs at concrete accounts.
use aqua_rust.Common.{
  ℕ, ◌≤◌, ◌≡◌, ◌≢◌, refl, true, false, none, some, List, [], ◌∷◌, arith, secs, get_elem?, sort_by,
}
use aqua_rust.Acugw.Pool.{
  Account, AccountCfg, AccountPool, new, new_pool, claim, release, mark_error, mark_transient,
  heal_if_cooled, st_busy, st_idle, st_error, st_invalid, interval_ok,
}
use aqua_rust.Acugw.Pool.Session.{Step, Reached, one_holder, never_invalid}
use aqua_rust.Acugw.Pool.Acquire.{
  Round, acquire, got, still_waiting, is_free, throttle_of, heal_all, nearest, candidates, claim_at,
}
use aqua_rust.Acugw.Pool.Acquire.Longest.{acquire_longest_idle}
use aqua_rust.Acugw.Pool.Acquire.Settles.{acquire_settles}
use aqua_rust.Acugw.Pool.Punish.{DrawsBelow}

abbrev first_cfg : AccountCfg
first_cfg = record { name = "a"; email = "a@qq.com"; password = "p"; enabled = true }

abbrev off_cfg : AccountCfg
off_cfg = record { name = "b"; email = "b@qq.com"; password = "p"; enabled = false }

abbrev draw_none : ℕ → ℕ
draw_none n = 0

draw_none-DrawsBelow : DrawsBelow draw_none
draw_none-DrawsBelow n h = h

abbrev fresh : Account
fresh = record {
  cfg = first_cfg;
  state = st_idle;
  token = none;
  last_released = 0;
  last_used = 0;
  cooldown_until = secs 3600;
  last_login = 0;
  error_count = 0;
  muted_count = 0;
  login_count = 0;
}

abbrev busy : Account
busy = record fresh { state = st_busy; last_used = secs 3600 }

claimed : Reached busy 1
unfolding claim new
claimed = Reached.goes (Reached.starts (secs 3600) first_cfg) (Step.claims (secs 3600) refl)

abbrev failed : Account
failed = record busy { state = st_error; error_count = 1; cooldown_until = secs 3901 }

once_failed : Reached failed 0
unfolding mark_error release
once_failed = Reached.goes claimed (Step.errs (secs 3601) 4000000 draw_none (omega arith))

failed_rests : heal_if_cooled (secs 3900) failed ≡ failed
unfolding heal_if_cooled
failed_rests = refl

abbrev holders : ℕ
holders = 1

one_holder_example :
    (holders ≤ 1) × (busy.state ≡ st_busy → holders ≡ 1) × (busy.state ≡ st_idle → holders ≡ 0)
one_holder_example = one_holder claimed

never_invalid_example : (failed.state ≢ st_invalid) × (failed.error_count ≤ 1)
never_invalid_example = never_invalid once_failed

abbrev passed : Account
passed = release 4000000 (mark_transient (secs 3602) draw_none 240 busy)

abbrev pool : AccountPool
pool = record {
  accounts =
      record fresh { last_released = 2000 } ∷ record fresh { last_released = 1000 } ∷ failed ∷ [];
  min_interval = 10;
  jitter = 5;
  login_min_interval = 60;
  auto_delete = true;
}

abbrev quiet : ℕ → Round
quiet now = record { now = now; draw = draw_none; woken = now; others = λ xs. xs }

-- Only enabled accounts are in a pool.
new_pool_enabled :
    (new_pool 0 (first_cfg ∷ off_cfg ∷ []) 1 1 1 true).accounts ≡ new 0 first_cfg ∷ []
unfolding new_pool
new_pool_enabled = refl

-- The account at place 1 was released first.
acquire_second : (acquire (secs 3640) (quiet (secs 3610) ∷ []) pool).1 ≡ got 1
unfolding acquire nearest candidates sort_by heal_all heal_if_cooled claim_at claim
acquire_second = refl

abbrev healed : List Account
healed = heal_all (secs 3610) pool.accounts

acquire_longest_idle_example :
    (i : ℕ) × (b : Account) × ((acquire (secs 3640) (quiet (secs 3610) ∷ []) pool).1 ≡ got i)
    × (get_elem? healed i ≡ some b)
    × (is_free (secs 3610) b ≡ true)
    × (interval_ok (secs 3610) (throttle_of pool (quiet (secs 3610))) b ≡ true)
    × (b.last_released ≤ 2000)
    × (get_elem? (acquire (secs 3640) (quiet (secs 3610) ∷ []) pool).0.accounts i
        ≡ some (record b { state = st_busy; last_used = secs 3610 }))
unfolding heal_all heal_if_cooled
acquire_longest_idle_example =
    acquire_longest_idle (secs 3640) 0 (quiet (secs 3610)) [] pool
      (record fresh { last_released = 2000 }) (λ xs. refl)
      (omega arith, (omega arith, (omega arith, tt))) refl refl refl

acquire_settles_example :
    (acquire (secs 3640) (quiet (secs 3610) ∷ quiet (secs 3641) ∷ []) pool).1 ≢ still_waiting
acquire_settles_example =
    acquire_settles (secs 3640) (quiet (secs 3610) ∷ []) (quiet (secs 3641)) pool ((λ xs. refl), tt)
      (λ xs. refl) (omega arith)
