-- ===== src/Samples/Trust.antt =====
-- The theorems on internal/trust at concrete inputs.
use trust_lot.Prelude.{◌+◌, ◌*◌, ◌≤◌, String, true, ◌≡◌, sort_by, refl, arith}
use trust_lot.Model.ReasonCode.{status_match, status_break, txn_duplicate, pos_quantity_mismatch}
use trust_lot.Db.Recon.{of_row}
use trust_lot.Trust.Scorer.{
  ReconInput, day, source_reliability_score, reconciliation_score, freshness_score,
  completeness_score, human_review_score, anomaly_penalty_score, compute_components, compute_total,
}
use trust_lot.Trust.Rationale.{level, build_rationale}
use trust_lot.Trust.Bounds.{gain, compute_total-bounds}
use trust_lot.Trust.Statuses.{compute_total-within}
use trust_lot.Trust.Order.{compute_total-ages}
use trust_lot.Trust.Service.{compute_for_recon_result, compute_for_exception}
use trust_lot.Trust.Computed.{compute_for_exception-compute_for_recon_result}
use trust_lot.Samples.Numbers.{cents}
use trust_lot.Samples.Data.{
  quiet, quiet-IsHealthy, database, position_run, quantity_result, quantity_exception,
}

abbrev scored : String → ReconInput
scored status = record {
  match_status = status;
  reason_code = txn_duplicate;
  source = "internal";
  as_of_date = 5 * day;
  now = 6 * day;
  exception_status = "open";
  has_account_id = true;
  has_security_id = true;
  has_quantity = true;
  has_amount = true;
}

-- 14.25 + 7 + 10.5 + 10 - 4 points.
break_scored : compute_total (compute_components (scored status_break)) ≡ 3_775
unfolding compute_total compute_components anomaly_penalty_score source_reliability_score
    reconciliation_score freshness_score completeness_score human_review_score
break_scored = refl

break_told :
    build_rationale 3_775 (compute_components (scored status_break)) status_break "open"
    ≡ "Low trust: reconciliation break and complete record fields and open exception pending review and significant anomaly penalty applied."
unfolding build_rationale compute_components freshness_score completeness_score
    anomaly_penalty_score
break_told = refl

compute_total-bounds_example :
    let c = compute_components (scored status_break) in
    (compute_total c + c.anomaly_penalty * 10 ≡ gain c)
    × (1_200 ≤ compute_total c)
    × (compute_total c ≤ 8_925)
compute_total-bounds_example = compute_total-bounds (scored status_break)

compute_total-within_example :
    let t = compute_total (compute_components (scored status_break)) in
    (1_500 ≤ t)
    × (t ≤ 5_925)
    × (¬ ((status_break ≡ status_match) × (level t ≡ "Low trust")))
    × (¬ ((status_break ≡ status_break) × (level t ≡ "High trust")))
compute_total-within_example = compute_total-within (scored status_break)

week_later : 6 * day ≤ 13 * day
week_later = omega arith

compute_total-ages_example :
    compute_total (compute_components (record (scored status_break) { now = 13 * day }))
    ≤ compute_total (compute_components (scored status_break))
compute_total-ages_example = compute_total-ages (scored status_break) (13 * day) week_later

-- The evidence for the result of the database on the position p-1.
abbrev result_evidence : ReconInput
result_evidence = record {
  match_status = status_break;
  reason_code = pos_quantity_mismatch;
  source = "internal";
  as_of_date = day;
  now = 90_000_000_000_000;
  exception_status = "open";
  has_account_id = true;
  has_security_id = true;
  has_quantity = true;
  has_amount = true;
}

compute_for_exception-compute_for_recon_result_example :
    compute_for_exception "exc-1" database ≡ compute_for_recon_result "res-1" database
unfolding of_row sort_by
compute_for_exception-compute_for_recon_result_example =
    compute_for_exception-compute_for_recon_result quiet-IsHealthy database (of_row quantity_result)
      position_run refl "res-1" quantity_exception refl refl refl refl
