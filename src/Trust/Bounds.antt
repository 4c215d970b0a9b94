-- ===== src/Trust/Bounds.antt =====
-- The range of the totals of internal/trust/scorer.go, and what a match status makes of them.
use trust_lot.Prelude.{ℕ, ◌+◌, ◌*◌, ◌≤◌, String, eq_iff, ◌≡◌, ◌≢◌, arith}
use trust_lot.Prelude.Int.{◌-ℤ◌}
use trust_lot.Trust.Rationale.{level}
use trust_lot.Model.ReasonCode.{status_match, status_near_match, status_break}
use trust_lot.Trust.Scorer.{
  ScoreComponents, ReconInput, source_reliability_score, reconciliation_score, freshness_score,
  completeness_score, human_review_score, anomaly_penalty_score, compute_components, compute_total,
  clamp, raw_score,
}

match_ne_break : ◌≢◌ {A = String} status_match status_break
match_ne_break = ground (arith, eq_iff status_match status_break)

near_ne_break : ◌≢◌ {A = String} status_near_match status_break
near_ne_break = ground (arith, eq_iff status_near_match status_break)

match_ne_near : ◌≢◌ {A = String} status_match status_near_match
match_ne_near = ground (arith, eq_iff status_match status_near_match)

high_ne_low : ◌≢◌ {A = String} "High trust" "Low trust"
high_ne_low = ground (arith, eq_iff "High trust" "Low trust")

medium_ne_low : ◌≢◌ {A = String} "Medium trust" "Low trust"
medium_ne_low = ground (arith, eq_iff "Medium trust" "Low trust")

high_ne_medium : ◌≢◌ {A = String} "High trust" "Medium trust"
high_ne_medium = ground (arith, eq_iff "High trust" "Medium trust")

source_bounds : (s : String) → (70 ≤ source_reliability_score s) × (source_reliability_score s ≤ 95)
unfolding source_reliability_score
source_bounds s = ground arith

freshness_bounds :
    (input : ReconInput)
    → let x = freshness_score input.as_of_date input.now in (10 ≤ x) × (x ≤ 100)
unfolding freshness_score
freshness_bounds input = ground arith

completeness_bound : (input : ReconInput) → completeness_score input ≤ 100
unfolding completeness_score
completeness_bound input = ground arith

review_bound : (s : String) → human_review_score s ≤ 100
unfolding human_review_score
review_bound s = ground arith

-- The subscore of the match status and the penalty, by the status.
status_bounds :
    (status reason : String)
    → let r = reconciliation_score status in
      let a = anomaly_penalty_score status reason in (a * 10 ≤ r * 35) × (r ≤ 100) × (a ≤ 40)
unfolding reconciliation_score anomaly_penalty_score
status_bounds status reason = ground (arith, eq_iff status status_break, eq_iff status status_match)

-- The weighted sum and the weighted penalty.
abbrev pub gain : ScoreComponents → ℕ
gain c =
    c.source_reliability * 15
    + c.reconciliation * 35
    + c.freshness * 15
    + c.completeness * 10
    + c.human_review * 15

-- Where the penalty does not exceed the sum, and the sum not the range, nothing is clamped.
pub compute_total_eq :
    (c : ScoreComponents)
    → c.anomaly_penalty * 10 ≤ gain c
    → gain c ≤ 10_000
    → compute_total c + c.anomaly_penalty * 10 ≡ gain c
unfolding compute_total clamp raw_score ◌-ℤ◌
compute_total_eq c low high = ground arith

-- The total is the weighted sum of the subscores less the weighted penalty, for every input: the
-- clamp never takes effect, and the total lies between 12.00 and 89.25 points.
pub compute_total-bounds :
    (input : ReconInput)
    → let c = compute_components input in
      (compute_total c + c.anomaly_penalty * 10 ≡ gain c)
      × (1_200 ≤ compute_total c)
      × (compute_total c ≤ 8_925)
unfolding compute_components
compute_total-bounds input =
    let c = compute_components input in
    omega (
      arith,
      compute_total_eq c,
      source_bounds input.source,
      freshness_bounds input,
      completeness_bound input,
      review_bound input.exception_status,
      status_bounds input.match_status input.reason_code,
    )

match_scores :
    (status reason : String)
    → status ≡ status_match
    → (reconciliation_score status ≡ 100) × (anomaly_penalty_score status reason ≡ 0)
unfolding reconciliation_score anomaly_penalty_score
match_scores status reason e =
    ground (arith, eq_iff status status_break, eq_iff status status_match, match_ne_break)

near_scores :
    (status reason : String)
    → status ≡ status_near_match
    → (reconciliation_score status ≡ 70) × (anomaly_penalty_score status reason ≡ 0)
unfolding reconciliation_score anomaly_penalty_score
near_scores status reason e = ground (
  arith,
  eq_iff status status_break,
  eq_iff status status_match,
  eq_iff status status_near_match,
  near_ne_break,
  match_ne_near,
)

break_scores :
    (status reason : String)
    → status ≡ status_break
    → (reconciliation_score status ≡ 20)
      × (20 ≤ anomaly_penalty_score status reason)
      × (anomaly_penalty_score status reason ≤ 40)
unfolding reconciliation_score anomaly_penalty_score
break_scores status reason e = ground (
  arith,
  eq_iff status status_break,
  eq_iff status status_match,
  eq_iff status status_near_match,
  near_ne_break,
  match_ne_break,
)

level-not_low : (t : ℕ) → 4_700 ≤ t → level t ≢ "Low trust"
unfolding level
level-not_low t h = ground (arith, high_ne_low, medium_ne_low)

level-not_high : (t : ℕ) → t ≤ 5_925 → level t ≢ "High trust"
unfolding level
level-not_high t h = ground (arith, high_ne_low, high_ne_medium)

pub match_total :
    (input : ReconInput)
    → input.match_status ≡ status_match
    → let t = compute_total (compute_components input) in (4_700 ≤ t) × (level t ≢ "Low trust")
unfolding compute_components
match_total input e =
    let t = compute_total (compute_components input) in
    let at_least : 4_700 ≤ t = omega (
      arith,
      compute_total-bounds input,
      source_bounds input.source,
      freshness_bounds input,
      match_scores input.match_status input.reason_code e,
    ) in
    (at_least, level-not_low t at_least)

pub near_match_total :
    (input : ReconInput)
    → input.match_status ≡ status_near_match
    → let t = compute_total (compute_components input) in (3_650 ≤ t) × (t ≤ 7_875)
unfolding compute_components
near_match_total input e = omega (
  arith,
  compute_total-bounds input,
  source_bounds input.source,
  freshness_bounds input,
  completeness_bound input,
  review_bound input.exception_status,
  near_scores input.match_status input.reason_code e,
)

pub break_total :
    (input : ReconInput)
    → input.match_status ≡ status_break
    → let t = compute_total (compute_components input) in
      (1_500 ≤ t) × (t ≤ 5_925) × (level t ≢ "High trust")
unfolding compute_components
break_total input e =
    let t = compute_total (compute_components input) in
    let within : (1_500 ≤ t) × (t ≤ 5_925) = omega (
      arith,
      compute_total-bounds input,
      source_bounds input.source,
      freshness_bounds input,
      completeness_bound input,
      review_bound input.exception_status,
      break_scores input.match_status input.reason_code e,
    ) in
    (within.0, within.1, level-not_high t within.1)
