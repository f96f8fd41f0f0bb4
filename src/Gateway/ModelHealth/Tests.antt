-- ===== src/Gateway/ModelHealth/Tests.antt =====
-- Refreshes in thousandths, for floating point numbers.
use aqua_rust.Common.{
  ℕ, none, [], ◌∷◌, List, ◌≡◌, refl, secs, lookup, insert, remove, retain, string_discrete,
}
use aqua_rust.Gateway.Floats.{thousandths}
use aqua_rust.Gateway.ModelHealth.{Monitor, Row, judge, judge_all, refresh}
use aqua_rust.Gateway.ModelHealth.Marks.{if_young, judged_by, refresh_marks}

abbrev rows : List Row
rows =
    record { model = "a"; total = 100; good = 10 }
    ∷ (record { model = "b"; total = 20; good = 12 }
        ∷ (record { model = "c"; total = 29; good = 0 } ∷ []))

-- `b` is marked, and so is `d`, of which nobody has asked for more than six hours.
abbrev before : Monitor
before = ("b", 5) ∷ (("d", 0) ∷ [])

abbrev now : ℕ
now = secs 21600

after : refresh ⦃f = thousandths⦄ now rows before ≡ ("a", now) ∷ []
unfolding refresh judge_all judge lookup insert remove retain string_discrete
after = refl

no_entry : lookup {V = ℕ} "b" (("d", 0) ∷ []) ≡ none
unfolding lookup string_discrete
no_entry = refl

no_other : lookup {V = ℕ} "d" [] ≡ none
unfolding lookup
no_other = refl

refresh_marks_example :
    lookup "a" (refresh ⦃f = thousandths⦄ now rows before)
    ≡ if_young now (judged_by ⦃f = thousandths⦄ now "a" rows (lookup "a" before))
refresh_marks_example =
    refresh_marks ⦃f = thousandths⦄ now "a" rows before (no_entry, (no_other, tt))
