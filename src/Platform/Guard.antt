-- ===== src/Platform/Guard.antt =====
-- src/platform/guard.rs: the registration guard. Times are seconds since the epoch.
pub mod Times
pub mod Limits
mod Tests
use aqua_rust.Common.{
  ℕ, ◌+◌, ◌-◌, String, Bool, true, false, Option, none, some, List, [], ◌∷◌, ◌++◌, Map, lookup,
  insert, unwrap_or, any, filter, length, is_empty, leb, if◌then◌else◌, str_contains, str_is_empty,
  to_lowercase,
}

abbrev pub automation_uas : List String
automation_uas =
    "python-requests" ∷ "python-urllib" ∷ "curl/" ∷ "wget/" ∷ "axios/" ∷ "node-fetch" ∷ "okhttp/"
    ∷ "go-http-client" ∷ "java/" ∷ "libwww-perl" ∷ "httpie" ∷ "insomnia" ∷ "postman" ∷ "aiohttp"
    ∷ "httpx" ∷ "fasthttp" ∷ "reqwest" ∷ []

unfoldable pub is_automation_ua : String → Bool
is_automation_ua ua = any (str_contains (to_lowercase ua)) automation_uas

pub record GuardInner : Type 0 where
  pub ip_regs : Map (List ℕ)
  pub device_regs : Map (List ℕ)

-- The messages of the refusals.
pub data Refusal : Type 0 where
  no_user_agent automation no_accept no_accept_language too_many_of_ip too_many_of_device : Refusal

abbrev pub window : ℕ
window = 3600

-- The times from the cutoff on, and only the keys that have one.
unfoldable pub prune : ℕ → Map (List ℕ) → Map (List ℕ)
prune cutoff [] = []
prune cutoff ((k, v) ∷ m) =
    let kept = filter (λ t. leb cutoff t) v in
    if is_empty kept then prune cutoff m else (k, kept) ∷ prune cutoff m

-- `get(k)`, with no times for an absent key.
abbrev pub times_of : String → Map (List ℕ) → List ℕ
times_of k m = unwrap_or (lookup k m) []

-- `entry(k).or_default().push(now)`.
abbrev pub push : ℕ → String → Map (List ℕ) → Map (List ℕ)
push now k m = insert k (times_of k m ++ now ∷ []) m

-- The part for the device, when the address has passed.
unfoldable pub check_device : ℕ → String → GuardInner → GuardInner × Option Refusal
check_device now device_fp g =
    if str_is_empty device_fp
    then (g, none)
    else if leb 2 (length (times_of device_fp g.device_regs))
    then (g, some too_many_of_device)
    else (record g { device_regs = push now device_fp g.device_regs }, none)

unfoldable pub check_timing : ℕ → String → String → GuardInner → GuardInner × Option Refusal
check_timing now ip device_fp g =
    let pruned : GuardInner = record {
      ip_regs = prune (now - window) g.ip_regs;
      device_regs = prune (now - window) g.device_regs;
    } in
    if leb 3 (length (times_of ip pruned.ip_regs))
    then (pruned, some too_many_of_ip)
    else check_device now device_fp (record pruned { ip_regs = push now ip pruned.ip_regs })

-- What the headers of a request are refused for.
unfoldable pub check_headers : String → String → String → Option Refusal
check_headers user_agent accept accept_lang =
    if str_is_empty user_agent
    then some no_user_agent
    else if is_automation_ua user_agent
    then some automation
    else if str_is_empty accept
    then some no_accept
    else if str_is_empty accept_lang
    then some no_accept_language
    else none

unfoldable pub validate :
    ℕ → String → String → String → String → String → GuardInner → GuardInner × Option Refusal
validate now user_agent accept accept_lang device_fp ip g =
    elim (check_headers user_agent accept accept_lang) [
      | some r ↦ (g, some r)
      | none ↦ check_timing now ip device_fp g
    ]
