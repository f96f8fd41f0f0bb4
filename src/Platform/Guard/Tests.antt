-- ===== src/Platform/Guard/Tests.antt =====
-- The registration guard at concrete attempts.
use aqua_rust.Common.{ℕ, ◌-◌, ◌≤◌, ◌≡◌, refl, List, [], ◌∷◌, arith, lookup, insert, string_discrete}
use aqua_rust.Platform.Guard.{check_timing, check_device, prune, window}
use aqua_rust.Platform.Guard.Times.{count_from}
use aqua_rust.Platform.Guard.Limits.{
  Attempt, attempts, last_time, empty_guard, registrations_limited,
}

abbrev from : ℕ → Attempt
from t = record { at = t; ip = "1.2.3.4"; device = "" }

abbrev four : List Attempt
four = from 5000 ∷ from 5001 ∷ from 5002 ∷ from 5003 ∷ []

-- The fourth is refused.
three_pass : (attempts "1.2.3.4" four empty_guard []).1 ≡ 5000 ∷ 5001 ∷ 5002 ∷ []
unfolding attempts check_timing check_device prune lookup insert string_discrete
three_pass = refl

registrations_limited_example :
    count_from (last_time 4000 four - window) (attempts "1.2.3.4" four empty_guard []).1 ≤ 3
registrations_limited_example =
    registrations_limited "1.2.3.4" 4000 four
      (omega arith, (omega arith, (omega arith, (omega arith, tt))))
