-- ===== src/Gateway/ModelHealth.antt =====
-- src/gateway/model_health.rs. The counts of the last hour, as the statement gives them, are a list:
-- the model, the requests that have reached the upstream and those that it has answered well.
pub mod Marks
mod Tests
use aqua_rust.Common.{
  ℕ, ◌-◌, ◌*◌, String, Bool, true, false, not, ◌&&◌, Option, none, some, List, [], ◌∷◌, Map, lookup,
  insert, remove, retain, contains_key, is_empty, map, ltb, leb, if◌then◌else◌, secs, is_some,
}
use aqua_rust.Gateway.Floats.{Floats}

abbrev pub failed_min_requests : ℕ
failed_min_requests = 30

abbrev pub recover_min_requests : ℕ
recover_min_requests = 20

abbrev pub max_mark_age : ℕ
max_mark_age = secs (6 * 3600)

-- The models that are marked as failed, with the time of the first mark.
abbrev pub Monitor : Type 0
Monitor = Map ℕ

pub record Row : Type 0 where
  pub model : String
  pub total : ℕ
  pub good : ℕ

unfoldable pub is_failed : String → Monitor → Bool
is_failed model m = contains_key model m

abbrev pub failed_models : Monitor → List String
failed_models m = map (λ e. e.0) m

-- `entry(model).or_insert(now)`.
abbrev pub or_insert : String → ℕ → Monitor → Monitor
or_insert model now m = if contains_key model m then m else insert model now m

abbrev pub is_young : ℕ → String → ℕ → Bool
is_young now model t = ltb (now - t) max_mark_age

module _ ⦃f : Floats⦄ where
  open f use {ratio, of_u64, div, lt, le}

  abbrev pub has_failed : Row → Bool
  has_failed r =
      leb failed_min_requests r.total
      && lt (ratio 7 10) (div (of_u64 (r.total - r.good)) (of_u64 r.total))

  abbrev pub has_recovered : Row → Bool
  has_recovered r =
      leb recover_min_requests r.total && le (ratio 6 10) (div (of_u64 r.good) (of_u64 r.total))

  unfoldable pub judge : ℕ → Row → Monitor → Monitor
  judge now r m =
      if has_failed r
      then or_insert r.model now m
      else if has_recovered r
      then remove r.model m
      else m

  unfoldable pub judge_all : ℕ → List Row → Monitor → Monitor
  unfolding judge
  judge_all now [] m = m
  judge_all now (r ∷ rs) m = judge_all now rs (judge now r m)

  unfoldable pub refresh : ℕ → List Row → Monitor → Monitor
  unfolding judge_all
  refresh now rows m =
      let judged = judge_all now rows m in
      if not (is_empty judged) then retain (is_young now) judged else judged
