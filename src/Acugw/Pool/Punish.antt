-- ===== src/Acugw/Pool/Punish.antt =====
-- acugw/src/pool.rs: what a mute and a passing failure cost an account.
use aqua_rust.Common.{ℕ, ◌+◌, ◌≤◌, ◌<◌, ◌≡◌, Option, none, some, leb, arith, secs, max}
use aqua_rust.Acugw.Pool.{
  Account, mark_muted, mark_transient, heal_if_cooled, release, mute_secs, progressive_cooldown,
  st_busy,
}
use aqua_rust.Acugw.Pool.Acquire.{is_free}

-- What `gen_range` promises.
abbrev pub DrawsBelow : (ℕ → ℕ) → Type 0
DrawsBelow draw = (n : ℕ) → 0 < n → draw n < n

mute_secs-le :
    (unix muted_count : ℕ) (draw : ℕ → ℕ) (until : Option ℕ)
    → DrawsBelow draw
    → mute_secs unix draw muted_count until ≤ 259200
unfolding mute_secs progressive_cooldown
mute_secs-le unix muted_count draw none d = ground (arith, d 1800, d 3600, d 7200)
mute_secs-le unix muted_count draw (some ts) d = ground (arith, d 1800, d 3600, d 7200)

-- A muted account rests for at least five minutes and at most three days, and no healing brings
-- it back before.
pub muted_rests :
    (now unix : ℕ) (draw : ℕ → ℕ) (until : Option ℕ) (a : Account)
    → DrawsBelow draw
    → (now + secs 300 ≤ (mark_muted now unix draw until a).cooldown_until)
      × ((mark_muted now unix draw until a).cooldown_until ≤ now + secs 259200)
      × ((t : ℕ)
          → t < (mark_muted now unix draw until a).cooldown_until
          → heal_if_cooled t (mark_muted now unix draw until a) ≡ mark_muted now unix draw until a)
unfolding mark_muted heal_if_cooled
muted_rests now unix draw until a d =
    (omega arith, omega (arith, mute_secs-le unix _ draw until d), λ t l. ground arith)

-- After a passing failure and the drop of its guard, a busy account can be chosen again exactly
-- from the end of its cooldown on, which is 20 seconds and less than `max_secs` more; its failures
-- are not counted and its state needs no healing.
pub transient_passes :
    (now now_millis max_secs : ℕ) (draw : ℕ → ℕ) (a : Account)
    → DrawsBelow draw
    → 0 < max_secs
    → a.state ≡ st_busy
    → let b = release now_millis (mark_transient now draw max_secs a) in
      (now + secs 20 ≤ b.cooldown_until)
      × (b.cooldown_until < now + secs (20 + max_secs))
      × (b.error_count ≡ a.error_count)
      × ((t : ℕ) → is_free t b ≡ leb b.cooldown_until t)
unfolding release mark_transient
transient_passes now now_millis max_secs draw a d l e =
    let below : draw (max max_secs 1) < max max_secs 1 = d (max max_secs 1) (omega arith) in
    (ground arith, ground (arith, below), ground arith, λ t. ground arith)
