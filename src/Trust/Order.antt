-- ===== src/Trust/Order.antt =====
-- How the total of internal/trust/scorer.go moves with the clock, the review of the exception and the
-- match status.
use trust_lot.Prelude.{ℕ, ◌+◌, ◌-◌, ◌*◌, ◌/◌, ◌≤◌, String, ◌≡◌, refl, arith}
use trust_lot.Prelude.Int.{ℤ, ◌≤ℤ◌}
use trust_lot.Platform.{Time}
use trust_lot.Trust.Scorer.{
  ReconInput, source_reliability_score, reconciliation_score, completeness_score,
  anomaly_penalty_score, day, days_stale, freshness_of_days, freshness_score, human_review_score,
  compute_components, compute_total,
}
use trust_lot.Trust.Bounds.{compute_total-bounds}

-- Older data is not fresher.
freshness-antitone : (a b : ℤ) → a ≤ℤ b → freshness_of_days b ≤ freshness_of_days a
unfolding freshness_of_days
freshness-antitone a b h = ground arith

div_mono : (a b : ℕ) → a ≤ b → a / day ≤ b / day
div_mono a b h = omega arith

days_stale-mono :
    (as_of_date now later : Time)
    → now ≤ later
    → days_stale as_of_date now ≤ℤ days_stale as_of_date later
unfolding days_stale
days_stale-mono as_of_date now later h = ground (
  arith,
  div_mono (now - as_of_date) (later - as_of_date),
  div_mono (as_of_date - later) (as_of_date - now),
)

-- The total over the subscores of the input's parts.
total_parts :
    (input : ReconInput)
    → compute_total (compute_components input)
        + anomaly_penalty_score input.match_status input.reason_code * 10
      ≡ source_reliability_score input.source * 15
        + reconciliation_score input.match_status * 35
        + freshness_score input.as_of_date input.now * 15
        + completeness_score input * 10
        + human_review_score input.exception_status * 15
unfolding compute_components
total_parts input = (compute_total-bounds input).0

-- Completeness looks neither at the clock nor at the exception.
completeness-same :
    (input : ReconInput) (now : Time) (s : String)
    → (completeness_score (record input { now = now }) ≡ completeness_score input)
      × (completeness_score (record input { exception_status = s }) ≡ completeness_score input)
unfolding completeness_score
completeness-same input now s = (refl, refl)

-- The same evidence scored later has no higher total: only the freshness moves, and it never rises.
pub compute_total-ages :
    (input : ReconInput) (later : Time)
    → input.now ≤ later
    → compute_total (compute_components (record input { now = later }))
      ≤ compute_total (compute_components input)
unfolding freshness_score
compute_total-ages input later h = omega (
  arith,
  total_parts input,
  total_parts (record input { now = later }),
  (completeness-same input later "").0,
  freshness-antitone (days_stale input.as_of_date input.now) (days_stale input.as_of_date later)
      (days_stale-mono input.as_of_date input.now later h),
)

-- The input with an exception of some status, and its total.
abbrev with_exception : String → ReconInput → ReconInput
with_exception s input = record input { exception_status = s }

abbrev pub total_under : ReconInput → String → ℕ
total_under input s = compute_total (compute_components (with_exception s input))

review_scores :
    (human_review_score "open" ≡ 0)
    × (human_review_score "acknowledged" ≡ 40)
    × (human_review_score "resolved" ≡ 100)
    × (human_review_score "suppressed" ≡ 100)
    × (human_review_score "" ≡ 50)
unfolding human_review_score
review_scores = (refl, refl, refl, refl, refl)

-- Along the life of an exception the total rises: six points from open to acknowledged, another nine
-- to resolved or to suppressed. Without an exception it lies between, 7.50 points above open.
pub compute_total-review :
    (input : ReconInput)
    → (total_under input "acknowledged" ≡ total_under input "open" + 600)
      × (total_under input "resolved" ≡ total_under input "acknowledged" + 900)
      × (total_under input "suppressed" ≡ total_under input "resolved")
      × (total_under input "" ≡ total_under input "open" + 750)
compute_total-review input = omega (
  arith,
  review_scores,
  total_parts (with_exception "open" input),
  total_parts (with_exception "acknowledged" input),
  total_parts (with_exception "resolved" input),
  total_parts (with_exception "suppressed" input),
  total_parts (with_exception "" input),
  (completeness-same input 0 "open").1,
  (completeness-same input 0 "acknowledged").1,
  (completeness-same input 0 "resolved").1,
  (completeness-same input 0 "suppressed").1,
  (completeness-same input 0 "").1,
)
