-- ===== src/Platform/Guard/Limits.antt =====
-- src/platform/guard.rs: how many registrations an address can make in an hour.
use aqua_rust.Common.{
  ℕ, ◌+◌, ◌-◌, ◌≤◌, ◌<◌, ◌≡◌, refl, ◌∙◌, sym, ap, subst, String, Bool, true, false, Option, none,
  some, List, [], ◌∷◌, ◌++◌, Map, lookup, string_discrete, Distinct, insert-Distinct, length,
  length-append, leb, if◌then◌else◌, arith, Bool-cases, inl, inr, is_same,
}
use aqua_rust.Platform.Guard.{
  GuardInner, Refusal, check_timing, check_device, prune, times_of, push, window,
}
use aqua_rust.Platform.Guard.Times.{
  count_from, count_from-append, count_from-le, count_from-filter, prune-Distinct, times_of-prune,
  times_of-push,
}

-- A registration attempt, from an address and a device.
pub record Attempt : Type 0 where
  pub at : ℕ
  pub ip : String
  pub device : String

abbrev pub is_none : Option Refusal → Bool
is_none none = true
is_none (some r) = false

-- The passes of an address, with this one if it passes and is the address's.
abbrev pub counted : Bool → Bool → ℕ → List ℕ → List ℕ
counted true true at passed = passed ++ at ∷ []
counted true false at passed = passed
counted false mine at passed = passed

-- The guard after the attempts, and the times of those of one address that passed.
unfoldable pub attempts : String → List Attempt → GuardInner → List ℕ → GuardInner × List ℕ
attempts ip [] g passed = (g, passed)
attempts ip (a ∷ rest) g passed =
    let (g', refusal) = check_timing a.at a.ip a.device g in
    attempts ip rest g' (counted (is_none refusal) (is_same a.ip ip) a.at passed)

-- Times do not run backwards.
abbrev pub Ordered : ℕ → List Attempt → Type 0
Ordered now [] = Unit
Ordered now (a ∷ rest) = (now ≤ a.at) × Ordered a.at rest

abbrev pub last_time : ℕ → List Attempt → ℕ
last_time now [] = now
last_time now (a ∷ rest) = last_time a.at rest

abbrev pub empty_guard : GuardInner
empty_guard = record { ip_regs = []; device_regs = [] }

-- The guard remembers every pass within the hour before `now`, and no more than three.
record Remembers (ip : String) (now : ℕ) (g : GuardInner) (passed : List ℕ) : Type 0 where
  distinct : Distinct g.ip_regs
  known : (c : ℕ) → now ≤ c + window → count_from c passed ≤ count_from c (times_of ip g.ip_regs)
  few : length (times_of ip g.ip_regs) ≤ 3

pruned-Remembers :
    (ip : String) (now at : ℕ) (g : GuardInner) (passed : List ℕ)
    → now ≤ at
    → Remembers ip now g passed
    → Remembers ip at
        (record {
          ip_regs = prune (at - window) g.ip_regs;
          device_regs = prune (at - window) g.device_regs;
        })
        passed
pruned-Remembers ip now at g passed l r =
    let same = times_of-prune (at - window) ip g.ip_regs r.distinct in
    record {
      distinct = prune-Distinct (at - window) g.ip_regs r.distinct;
      known = λ c h. omega (
        arith,
        r.known c (omega arith),
        ap (count_from c) same,
        count_from-filter (at - window) c (times_of ip g.ip_regs) (omega arith),
      );
      few =
          omega (arith, r.few, ap length same, count_from-le (at - window) (times_of ip g.ip_regs));
    }

check_device-ip :
    (now : ℕ) (device : String) (g : GuardInner) → (check_device now device g).0.ip_regs ≡ g.ip_regs
unfolding check_device
check_device-ip now device g = ground arith

-- A push of an address, which may count as a pass of the address that is watched.
pushed-Remembers :
    (ip : String) (at : ℕ) (g g' : GuardInner) (passed : List ℕ) (counts mine : Bool)
    → Remembers ip at g passed
    → (mine ≡ true → length (times_of ip g.ip_regs) < 3)
    → Distinct g'.ip_regs
    → times_of ip g'.ip_regs
      ≡ (if mine then times_of ip g.ip_regs ++ at ∷ [] else times_of ip g.ip_regs)
    → Remembers ip at g' (counted counts mine at passed)
pushed-Remembers ip at g g' passed true true r l d e = record {
  distinct = d;
  known = λ c h. omega (
    arith,
    r.known c h,
    ap (count_from c) e,
    count_from-append c passed (at ∷ []),
    count_from-append c (times_of ip g.ip_regs) (at ∷ []),
  );
  few = omega (arith, l refl, ap length e, length-append (times_of ip g.ip_regs) (at ∷ []));
}
pushed-Remembers ip at g g' passed false true r l d e = record {
  distinct = d;
  known = λ c h. omega (
    arith,
    r.known c h,
    ap (count_from c) e,
    count_from-append c (times_of ip g.ip_regs) (at ∷ []),
  );
  few = omega (arith, l refl, ap length e, length-append (times_of ip g.ip_regs) (at ∷ []));
}
pushed-Remembers ip at g g' passed true false r l d e = record {
  distinct = d;
  known = λ c h. omega (arith, r.known c h, ap (count_from c) e);
  few = omega (arith, r.few, ap length e);
}
pushed-Remembers ip at g g' passed false false r l d e = record {
  distinct = d;
  known = λ c h. omega (arith, r.known c h, ap (count_from c) e);
  few = omega (arith, r.few, ap length e);
}

below :
    (ip k : String) (m : Map (List ℕ))
    → leb 3 (length (times_of k m)) ≡ false
    → is_same k ip ≡ true
    → length (times_of ip m) < 3
below ip k m e h = elim (string_discrete k ip) [
  | yes p ↦ subst (λ j. length (times_of j m) < 3) p (ground arith)
  | no p ↦ absurd (ground arith)
]

check_timing-Remembers :
    (ip : String) (now : ℕ) (a : Attempt) (g : GuardInner) (passed : List ℕ)
    → now ≤ a.at
    → Remembers ip now g passed
    → Remembers ip a.at
        (check_timing a.at a.ip a.device g).0
        (counted (is_none (check_timing a.at a.ip a.device g).1) (is_same a.ip ip) a.at passed)
unfolding check_timing
check_timing-Remembers ip now a g passed l r =
    let P : GuardInner = record {
      ip_regs = prune (a.at - window) g.ip_regs;
      device_regs = prune (a.at - window) g.device_regs;
    } in
    let pruned = pruned-Remembers ip now a.at g passed l r in
    elim (Bool-cases (leb 3 (length (times_of a.ip P.ip_regs)))) [
      | inl e ↦ rw e pruned
      | inr e ↦
          let Q : GuardInner = record P { ip_regs = push a.at a.ip P.ip_regs } in
          rw e (
            pushed-Remembers ip a.at P (check_device a.at a.device Q).0 passed
              (is_none (check_device a.at a.device Q).1) (is_same a.ip ip) pruned
              (λ m. below ip a.ip P.ip_regs e m)
              (subst Distinct (sym (check_device-ip a.at a.device Q))
                (insert-Distinct a.ip _ P.ip_regs pruned.distinct))
              (ap (times_of ip) (check_device-ip a.at a.device Q)
                ∙ times_of-push a.at a.ip ip P.ip_regs))
    ]

attempts-Remembers :
    (ip : String) (now : ℕ) (tries : List Attempt) (g : GuardInner) (passed : List ℕ)
    → Ordered now tries
    → Remembers ip now g passed
    → Remembers ip
        (last_time now tries)
        (attempts ip tries g passed).0
        (attempts ip tries g passed).1
unfolding attempts
attempts-Remembers ip now [] g passed o r = r
attempts-Remembers ip now (a ∷ rest) g passed o r =
    attempts-Remembers ip a.at rest _ _ o.1 (check_timing-Remembers ip now a g passed o.0 r)

-- From a guard that remembers nothing on: whatever the attempts, of all addresses and devices, at
-- most three of one address pass within an hour, counted back from the last attempt.
pub registrations_limited :
    (ip : String) (start : ℕ) (tries : List Attempt)
    → Ordered start tries
    → count_from (last_time start tries - window) (attempts ip tries empty_guard []).1 ≤ 3
registrations_limited ip start tries o =
    let fresh : Remembers ip start empty_guard [] = record {
      distinct = tt;
      known = λ c h. omega arith;
      few = unfold lookup in omega arith;
    } in
    let r = attempts-Remembers ip start tries empty_guard [] o fresh in
    let c = last_time start tries - window in
    omega (
      arith,
      r.known c (omega arith),
      r.few,
      count_from-le c (times_of ip (attempts ip tries empty_guard []).0.ip_regs),
    )
