-- ===== src/Acugw/Pool/Session.antt =====
-- acugw/src/pool.rs, as acugw/src/api.rs uses it: the steps of one account and of the guards that
-- hold it. A failure and the drop of the guard, which is all that follows it in
-- `chat_completions`, are one step. Behind the failure of a login half a second passes with the guard
-- held; the account is not idle in that time, since no cooldown ends while a guard is held, which
-- `heals` takes for granted. A stream that has ended may mark an account that it no longer holds.
use aqua_rust.Common.{
  ℕ, ◌+◌, ◌-◌, ◌*◌, ◌==◌, Bool-cases, Option-cases, inl, inr, true, subst, sym, ◌<◌, ◌≤◌, ◌≡◌, ◌≢◌,
  refl, String, Option, none, some, Result, ok, err, arith, secs,
}
use aqua_rust.Acugw.Pool.{
  Account, AccountCfg, new, claim, release, heal_if_cooled, mark_error, mark_muted, mark_transient,
  invalidate_token, ensure_login, login, login_failed, login_succeeded, st_idle, st_busy,
  st_invalid, progressive_cooldown, mute_secs,
}

-- An account and the number of its guards, before and after.
pub data Step : Account → ℕ → Account → ℕ → Type 0 where
  claims : {a b : Account} {g : ℕ} (now : ℕ) → claim now a ≡ some b → Step a g b (g + 1)
  logs_in :
      {a : Account} {g : ℕ} (started now : ℕ) (backoff : ℕ → ℕ) (t : String)
      → 0 < g
      → Step a g (ensure_login started now backoff (ok t) a).0 g
  login_fails :
      {a : Account} {g : ℕ} (started now now_millis : ℕ) (backoff : ℕ → ℕ) (text : String)
      → 0 < g
      → a.token ≡ none
      → Step a g (release now_millis (ensure_login started now backoff (err text) a).0) (g - 1)
  errs :
      {a : Account} {g : ℕ} (now now_millis : ℕ) (draw : ℕ → ℕ)
      → 0 < g
      → Step a g (release now_millis (mark_error now draw a)) (g - 1)
  mutes :
      {a : Account} {g : ℕ} (now unix : ℕ) (draw : ℕ → ℕ) (until : Option ℕ)
      → Step a g (mark_muted now unix draw until a) g
  slows :
      {a : Account} {g : ℕ} (now max_secs : ℕ) (draw : ℕ → ℕ)
      → Step a g (mark_transient now draw max_secs a) g
  loses_token : {a : Account} {g : ℕ} → 0 < g → Step a g (invalidate_token a) g
  drops : {a : Account} {g : ℕ} (now_millis : ℕ) → 0 < g → Step a g (release now_millis a) (g - 1)
  heals :
      {a : Account} {g : ℕ} (now : ℕ)
      → (0 < g → heal_if_cooled now a ≡ a)
      → Step a g (heal_if_cooled now a) g

-- What an account and its guards come to, where the cooldown of a failed account outlasts its
-- guard.
pub data Reached : Account → ℕ → Type 0 where
  starts : (now : ℕ) (cfg : AccountCfg) → Reached (new now cfg) 0
  goes : {a b : Account} {g h : ℕ} → Reached a g → Step a g b h → Reached b h

pub record Sound (a : Account) (g : ℕ) : Type 0 where
  pub single : g ≤ 1
  pub idle_free : a.state ≡ 0 → g ≡ 0
  pub busy_held : a.state ≡ 1 → g ≡ 1
  pub valid : a.state ≤ 2
  pub clean : a.state ≤ 1 → (a.error_count ≡ 0) × (a.muted_count ≡ 0)
  pub once : a.error_count ≤ 1
  pub counted_free : 0 < a.error_count → g ≡ 0

claim-Sound : (a b : Account) (g now : ℕ) → claim now a ≡ some b → Sound a g → Sound b (g + 1)
unfolding claim
claim-Sound a b g now e s = elim (Bool-cases (a.state == st_idle)) [
  | inl h ↦ subst (λ c. Sound c (g + 1)) (ground (arith, claim)) (claimed h)
  | inr h ↦ absurd (ground arith)
]
  where
    claimed :
        (a.state == st_idle) ≡ true → Sound (record a { state = st_busy; last_used = now }) (g + 1)
    claimed h = ground arith

failed-Sound :
    (a : Account) (g now ms : ℕ) (backoff : ℕ → ℕ) (text : String)
    → 0 < g
    → Sound a g
    → Sound (release ms (login_failed now backoff text a).0) (g - 1)
unfolding release login_failed
failed-Sound a g now ms backoff text l s = ground arith

ensure_login-none :
    (a : Account) (started now : ℕ) (backoff : ℕ → ℕ) (answer : Result String String)
    → a.token ≡ none
    → ensure_login started now backoff answer a ≡ login started now backoff answer a
unfolding ensure_login
ensure_login-none a started now backoff answer e = rw e refl

ensure_login-some :
    (a : Account) (started now : ℕ) (backoff : ℕ → ℕ) (answer : Result String String) (u : String)
    → a.token ≡ some u
    → ensure_login started now backoff answer a ≡ (a, ok u)
unfolding ensure_login
ensure_login-some a started now backoff answer u e = rw e refl

logs_in-Sound :
    (a : Account) (g started now : ℕ) (backoff : ℕ → ℕ) (t : String)
    → Sound a g
    → Sound (ensure_login started now backoff (ok t) a).0 g
unfolding login login_succeeded
logs_in-Sound a g started now backoff t s = elim (Option-cases a.token) [
  | inl e ↦
      subst (λ r. Sound r.0 g) (sym (ensure_login-none a started now backoff (ok t) e))
        (ground arith)
  | inr (u, e) ↦
      subst (λ r. Sound r.0 g) (sym (ensure_login-some a started now backoff (ok t) u e)) s
]

login_fails-Sound :
    (a : Account) (g started now ms : ℕ) (backoff : ℕ → ℕ) (text : String)
    → 0 < g
    → a.token ≡ none
    → Sound a g
    → Sound (release ms (ensure_login started now backoff (err text) a).0) (g - 1)
unfolding login
login_fails-Sound a g started now ms backoff text l n s =
    subst (λ r. Sound (release ms r.0) (g - 1))
      (sym (ensure_login-none a started now backoff (err text) n))
      (failed-Sound (record a { last_login = started }) g now ms backoff text l (ground arith))

Step-Sound : {a b : Account} {g h : ℕ} → Step a g b h → Sound a g → Sound b h
unfolding release heal_if_cooled mark_error mark_muted mark_transient invalidate_token
Step-Sound (Step.claims {a} {b} {g} now e) s = claim-Sound a b g now e s
Step-Sound (Step.logs_in {a} {g} started now backoff t l) s =
    logs_in-Sound a g started now backoff t s
Step-Sound (Step.login_fails {a} {g} started now ms backoff text l n) s =
    login_fails-Sound a g started now ms backoff text l n s
Step-Sound (Step.errs now ms draw l) s = ground arith
Step-Sound (Step.mutes now unix draw until) s = ground arith
Step-Sound (Step.slows now max_secs draw) s = ground arith
Step-Sound (Step.loses_token l) s = ground arith
Step-Sound (Step.drops ms l) s = ground arith
Step-Sound (Step.heals now k) s = ground arith

Reached-Sound : {a : Account} {g : ℕ} → Reached a g → Sound a g
unfolding new
Reached-Sound (Reached.starts now cfg) = ground arith
Reached-Sound (Reached.goes r s) = Step-Sound s (Reached-Sound r)

-- Where cooldowns outlast guards: an account never has two guards, it is busy only while it has
-- one, and idle only while it has none.
pub one_holder :
    {a : Account} {g : ℕ}
    → Reached a g
    → (g ≤ 1) × (a.state ≡ st_busy → g ≡ 1) × (a.state ≡ st_idle → g ≡ 0)
one_holder r = let s = Reached-Sound r in (s.single, s.busy_held, s.idle_free)

-- Where cooldowns outlast guards, no account is ever declared invalid, however many logins and
-- requests fail: a failed account becomes usable again only by the healing, which forgets its
-- failures, so that the count stays below two.
pub never_invalid :
    {a : Account} {g : ℕ} → Reached a g → (a.state ≢ st_invalid) × (a.error_count ≤ 1)
never_invalid r = let s = Reached-Sound r in (λ e. ground arith, s.once)

-- Where cooldowns outlast guards, the mute of a busy account always takes the first of the three
-- cooldowns, whatever mutes it has had.
pub mute_never_escalates :
    {a : Account} {g : ℕ} (now unix : ℕ) (draw : ℕ → ℕ)
    → Reached a g
    → a.state ≡ st_busy
    → (mark_muted now unix draw none a).cooldown_until ≡ now + secs (2 * 3600 + draw 1800)
unfolding mark_muted
mute_never_escalates {a} now unix draw r e =
    let s = Reached-Sound r in ground (arith, s.clean, mute_secs, progressive_cooldown)
