-- ===== src/Acugw/Pool.antt =====
-- acugw/src/pool.rs: an account's state, the accounts of the pool and what happens to one of them.
-- Times are nanoseconds, but `last_released`, which is in milliseconds. `draw n` stands for
-- `gen_range(0..n)` of the random generator.
pub mod Acquire
pub mod Session
pub mod Punish
mod Tests
use aqua_rust.Common.{
  ℕ, ◌+◌, ◌-◌, ◌*◌, ◌/◌, String, Bool, true, false, not, ◌&&◌, Option, none, some, List, [], ◌∷◌,
  map, filter, length, min, max, ltb, leb, ◌==◌, if◌then◌else◌, secs, u8, u64, str_contains,
  to_lowercase, Result, ok, err,
}

abbrev pub st_idle : ℕ
st_idle = 0

abbrev pub st_busy : ℕ
st_busy = 1

abbrev pub st_error : ℕ
st_error = 2

abbrev pub st_invalid : ℕ
st_invalid = 3

abbrev pub max_error_count : ℕ
max_error_count = 3

-- The fields of the configuration that the pool reads.
pub record AccountCfg : Type 0 where
  pub name : String
  pub email : String
  pub password : String
  pub enabled : Bool

pub record Account : Type 0 where
  pub cfg : AccountCfg
  pub state : ℕ
  pub token : Option String
  pub last_released : ℕ
  pub last_used : ℕ
  pub cooldown_until : ℕ
  pub last_login : ℕ
  pub error_count : ℕ
  pub muted_count : ℕ
  pub login_count : ℕ

-- In seconds.
unfoldable pub progressive_cooldown : ℕ → (ℕ → ℕ) → ℕ
progressive_cooldown muted_count draw =
    if muted_count == 1
    then 2 * 3600 + draw 1800
    else if muted_count == 2
    then 6 * 3600 + draw 3600
    else 24 * 3600 + draw 7200

unfoldable pub new : ℕ → AccountCfg → Account
new now cfg = record {
  cfg = cfg;
  state = st_idle;
  token = none;
  last_released = 0;
  last_used = now - secs 3600;
  cooldown_until = now;
  last_login = now - secs 3600;
  error_count = 0;
  muted_count = 0;
  login_count = 0;
}

abbrev pub in_cooldown : ℕ → Account → Bool
in_cooldown now a = ltb now a.cooldown_until

abbrev pub cooldown : ℕ → ℕ → Account → Account
cooldown now s a = record a { cooldown_until = now + secs s }

-- The whole seconds from one time to a later one.
abbrev pub elapsed_secs : ℕ → ℕ → ℕ
elapsed_secs now since = (now - since) / 1000000000

abbrev pub interval_ok : ℕ → ℕ → Account → Bool
interval_ok now throttle a = leb throttle (elapsed_secs now a.last_used)

pub record AccountPool : Type 0 where
  pub accounts : List Account
  pub min_interval : ℕ
  pub jitter : ℕ
  pub login_min_interval : ℕ
  pub auto_delete : Bool

unfoldable pub new_pool : ℕ → List AccountCfg → ℕ → ℕ → ℕ → Bool → AccountPool
new_pool now cfgs min_interval jitter login_min_interval auto_delete = record {
  accounts = map (new now) (filter (λ c. c.enabled) cfgs);
  min_interval = min_interval;
  jitter = jitter;
  login_min_interval = login_min_interval;
  auto_delete = auto_delete;
}

unfoldable pub enabled_count : AccountPool → ℕ
enabled_count p = length (filter (λ a. not (a.state == st_invalid)) p.accounts)

unfoldable pub release : ℕ → Account → Account
release now_millis a =
    if a.state == st_busy then record a { state = st_idle; last_released = u64 now_millis } else a

unfoldable pub heal_if_cooled : ℕ → Account → Account
heal_if_cooled now a =
    if not (in_cooldown now a) && (a.state == st_error)
    then record a { state = st_idle; error_count = 0; muted_count = 0 }
    else a

-- The claim of an account: `compare_exchange(ST_IDLE, ST_BUSY)`, and the time of its use.
unfoldable pub claim : ℕ → Account → Option Account
claim now a =
    if a.state == st_idle then some (record a { state = st_busy; last_used = now }) else none

unfoldable pub mark_error : ℕ → (ℕ → ℕ) → Account → Account
mark_error now draw a =
    if not (a.state == st_busy)
    then a
    else (let b : Account = record a { state = st_error; error_count = u8 (a.error_count + 1) } in
        if leb max_error_count (u8 (a.error_count + 1))
        then record b { state = st_invalid }
        else cooldown now (300 + draw 600) b)

-- The seconds of a mute, by the end that the upstream gives, in seconds since the epoch as `unix`
-- is, or by the number of mutes.
unfoldable pub mute_secs : ℕ → (ℕ → ℕ) → ℕ → Option ℕ → ℕ
unfolding progressive_cooldown
mute_secs unix draw muted_count none = progressive_cooldown muted_count draw
mute_secs unix draw muted_count (some ts) =
    if ltb 0 (ts - unix)
    then min (ts - unix + 1800) (3 * 24 * 3600)
    else progressive_cooldown muted_count draw

unfoldable pub mark_muted : ℕ → ℕ → (ℕ → ℕ) → Option ℕ → Account → Account
unfolding mute_secs
mark_muted now unix draw mute_until a =
    let muted_count = u8 (a.muted_count + 1) in
    cooldown now (max (mute_secs unix draw muted_count mute_until) 300)
      (record a { state = st_error; muted_count = muted_count })

unfoldable pub mark_transient : ℕ → (ℕ → ℕ) → ℕ → Account → Account
mark_transient now draw max_secs a = cooldown now (20 + draw (max max_secs 1)) a

unfoldable pub invalidate_token : Account → Account
invalidate_token a = record a { token = none }

-- How long `ensure_login` sleeps before it logs in.
unfoldable pub login_wait : ℕ → ℕ → Account → ℕ
login_wait login_min_interval now a = login_min_interval - elapsed_secs now a.last_login

-- The texts of the failures, without the account's name.
pub data LoginError : Type 0 where
  muted : String → LoginError
  invalid : ℕ → String → LoginError
  failed : ℕ → String → LoginError

-- What a refused login does; `backoff n` stands for the seconds of `humanize::backoff(n, 30)`.
unfoldable pub login_failed : ℕ → (ℕ → ℕ) → String → Account → Account × Result LoginError String
login_failed now backoff text a =
    let n = u8 (a.error_count + 1) in
    let b : Account = record a { state = st_error; error_count = n } in
    if str_contains (to_lowercase text) "muted"
    then (cooldown now (24 * 3600) b, err (muted text))
    else if leb max_error_count n
    then (record b { state = st_invalid }, err (invalid n text))
    else (cooldown now (min (backoff n) 3600) b, err (failed n text))

unfoldable pub login_succeeded : ℕ → String → Account → Account × Result LoginError String
login_succeeded now t a = (
  cooldown now 0
      (record a { token = some t; login_count = u64 (a.login_count + 1); error_count = 0 }),
  ok t,
)

unfoldable pub login :
    ℕ → ℕ → (ℕ → ℕ) → Result String String → Account → Account × Result LoginError String
unfolding login_failed login_succeeded
login started now backoff (ok t) a = login_succeeded now t (record a { last_login = started })
login started now backoff (err text) a =
    login_failed now backoff text (record a { last_login = started })

-- `answer` is what the upstream says to a login, `started` the time after the sleep and `now` the
-- time of the answer.
unfoldable pub ensure_login :
    ℕ → ℕ → (ℕ → ℕ) → Result String String → Account → Account × Result LoginError String
unfolding login
ensure_login started now backoff answer a = elim a.token [
  | some t ↦ (a, ok t)
  | none ↦ login started now backoff answer a
]
