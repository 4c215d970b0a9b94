-- ===== src/Trust/Scorer.antt =====
-- internal/trust/scorer.go: the subscores and the total. The source computes them as float64 from
-- decimals of two places. Here a subscore and a weight are numbers of hundredths, so a product is a
-- number of ten-thousandths, and a total is a number of hundredths of a point: the source rounds its
-- total to two places, which takes away the error of its sums, far below half a hundredth.
use trust_lot.Prelude.{
  ℕ, suc, ◌+◌, ◌-◌, ◌*◌, ◌/◌, String, Bool, not, ◌||◌, ◌&&◌, List, [], ◌∷◌, ◌==◌, leb, length,
  if◌then◌else◌,
}
use trust_lot.Prelude.Int.{ℤ, pos, pos_part, sub_ℕ, ltb_ℤ, ◌-ℤ◌}
use trust_lot.Platform.{Time}
use trust_lot.Model.ReasonCode.{
  status_match, status_near_match, status_break, txn_duplicate, pos_quantity_mismatch,
  txn_amount_mismatch,
}

pub record ScoreComponents : Type 0 where
  pub source_reliability : ℕ
  pub reconciliation : ℕ
  pub freshness : ℕ
  pub completeness : ℕ
  pub human_review : ℕ
  pub anomaly_penalty : ℕ

-- The weights of the v1 model.
abbrev pub weights : ScoreComponents
weights = record {
  source_reliability = 15;
  reconciliation = 35;
  freshness = 15;
  completeness = 10;
  human_review = 15;
  anomaly_penalty = 10;
}

pub record ReconInput : Type 0 where
  pub match_status : String
  pub reason_code : String
  pub source : String
  pub as_of_date : Time
  pub now : Time
  pub exception_status : String
  pub has_account_id : Bool
  pub has_security_id : Bool
  pub has_quantity : Bool
  pub has_amount : Bool

unfoldable pub source_reliability_score : String → ℕ
source_reliability_score source =
    if source == "internal" then 95 else if source == "custodian" then 85 else 70

unfoldable pub reconciliation_score : String → ℕ
reconciliation_score status =
    if status == status_match
    then 100
    else if status == status_near_match
    then 70
    else if status == status_break
    then 20
    else 0

-- 24 hours, in nanoseconds.
abbrev pub day : ℕ
day = 86_400_000_000_000

-- `int(now.Sub(asOfDate).Hours() / 24)`: the conversion drops the fraction, towards zero.
unfoldable pub days_stale : Time → Time → ℤ
days_stale as_of_date now =
    if leb as_of_date now
    then pos ((now - as_of_date) / day)
    else sub_ℕ 0 ((as_of_date - now) / day)

abbrev pub leb_ℤ : ℤ → ℤ → Bool
leb_ℤ a b = not (ltb_ℤ b a)

abbrev pub eqb_ℤ : ℤ → ℤ → Bool
eqb_ℤ a b = leb_ℤ a b && leb_ℤ b a

unfoldable pub freshness_of_days : ℤ → ℕ
freshness_of_days days =
    if leb_ℤ days (pos 0)
    then 100
    else if eqb_ℤ days (pos 1)
    then 70
    else if leb_ℤ days (pos 7)
    then 30
    else 10

unfoldable pub freshness_score : Time → Time → ℕ
unfolding days_stale freshness_of_days
freshness_score as_of_date now = freshness_of_days (days_stale as_of_date now)

-- `for _, f := range fields { if f { present++ } }`
unfoldable pub count_present : List Bool → ℕ
count_present [] = 0
count_present (b ∷ fields) = if b then suc (count_present fields) else count_present fields

unfoldable pub completeness_score : ReconInput → ℕ
unfolding count_present
completeness_score input =
    let fields =
      input.has_account_id ∷ input.has_security_id ∷ input.has_quantity ∷ input.has_amount ∷ [] in
    count_present fields * 100 / length fields

unfoldable pub human_review_score : String → ℕ
human_review_score exception_status =
    if exception_status == ""
    then 50
    else if exception_status == "open"
    then 0
    else if exception_status == "acknowledged"
    then 40
    else if exception_status == "resolved" || exception_status == "suppressed"
    then 100
    else 50

unfoldable pub anomaly_penalty_score : String → String → ℕ
anomaly_penalty_score status reason =
    if not (status == status_break)
    then 0
    else if reason == txn_duplicate
    then 40
    else if reason == pos_quantity_mismatch || reason == txn_amount_mismatch
    then 30
    else 20

unfoldable pub compute_components : ReconInput → ScoreComponents
compute_components input = record {
  source_reliability = source_reliability_score input.source;
  reconciliation = reconciliation_score input.match_status;
  freshness = freshness_score input.as_of_date input.now;
  completeness = completeness_score input;
  human_review = human_review_score input.exception_status;
  anomaly_penalty = anomaly_penalty_score input.match_status input.reason_code;
}

unfoldable pub clamp : ℤ → ℤ → ℤ → ℤ
clamp v lo hi = if ltb_ℤ v lo then lo else if ltb_ℤ hi v then hi else v

-- The weighted sum, less the weighted penalty: `raw`, in ten-thousandths, which are the hundredths of
-- `raw * 100.0`.
unfoldable pub raw_score : ScoreComponents → ℤ
unfolding ◌-ℤ◌
raw_score c =
    pos (
      c.source_reliability * weights.source_reliability
      + c.reconciliation * weights.reconciliation
      + c.freshness * weights.freshness
      + c.completeness * weights.completeness
      + c.human_review * weights.human_review)
    -ℤ pos (c.anomaly_penalty * weights.anomaly_penalty)

-- The total in hundredths of a point, clamped to the range from 0 to 100 points.
unfoldable pub compute_total : ScoreComponents → ℕ
unfolding clamp raw_score
compute_total c = pos_part (clamp (raw_score c) (pos 0) (pos 10_000))
