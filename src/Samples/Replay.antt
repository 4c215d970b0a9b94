-- ===== src/Samples/Replay.antt =====
-- The theorems on internal/replay at concrete inputs.
use trust_lot.Prelude.{none, some, true, false, ◌&&◌, [], ◌∷◌, ◌≡◌, ◌≢◌, ◌↔◌, refl}
use trust_lot.Prelude.Int.{ℤ, pos}
use trust_lot.Model.ReasonCode.{
  status_match, status_break, pos_quantity_mismatch, map_account_unmapped, txn_duplicate,
}
use trust_lot.Model.{Exception}
use trust_lot.Db.Tables.{ReplayCaseRow, ReconResultRow, null, position_json}
use trust_lot.Db.Exec.{Result, ok, World, ◌>>=◌}
use trust_lot.Db.Recon.{of_row}
use trust_lot.Recon.Rules.{apply_rules, default_config, position_rules, transaction_rules}
use trust_lot.Replay.Snapshots.{unmarshal_position, replay_from_snapshots}
use trust_lot.Replay.Assess.{ReplayRunResult, assess, new_status, reason_text, assess_iff}
use trust_lot.Replay.Service.{create_case_from_exception, run_case}
use trust_lot.Replay.Cases.{run_case-reports}
use trust_lot.Replay.Captured.{capture-run, capture-run_transaction}
use trust_lot.Replay.Unmatched.{unmatched-changed}
use trust_lot.Samples.Numbers.{cents}
use trust_lot.Samples.Data.{
  quiet, quiet-IsHealthy, position_run, ours, theirs, trade, quantity_result, quantity_exception,
  database,
}

-- A case of a record with no pair: its other snapshot is the text `null`.
abbrev pub lone_case : ReplayCaseRow ℤ
lone_case = record {
  id = "case-1";
  description = "";
  status = "pending";
  source_exception_id = some "exc-1";
  entity_type = "position";
  expected_match_status = status_break;
  expected_reason_code = map_account_unmapped;
  internal_snapshot = some (position_json ours);
  custodian_snapshot = some null;
  config_snapshot = none;
  created_at = 0;
}

abbrev with_case : World ℤ
with_case = record database { tables = record database.tables { replay_cases = lone_case ∷ [] } }

-- The pair is a position and a record of zeros.
lone_replayed : replay_from_snapshots lone_case ≡ ok (status_break, some pos_quantity_mismatch)
unfolding replay_from_snapshots unmarshal_position apply_rules position_rules default_config
lone_replayed = refl

assess_iff_example :
    let r = assess "case-1" lone_case (status_match, none) in
    ((r.changed ≡ false) ↔ (
      (status_match ≡ lone_case.expected_match_status)
      × (reason_text none ≡ lone_case.expected_reason_code)))
    × ((r.regression ≡ true)
        ↔ ((lone_case.expected_match_status ≢ status_break) × (status_match ≡ status_break)))
    × ((r.improvement ≡ true)
        ↔ ((lone_case.expected_match_status ≡ status_break) × (status_match ≢ status_break)))
    × (r.improvement && r.regression ≡ false)
    × ((new_status r ≡ "failing") ↔ (r.regression ≡ true))
assess_iff_example = assess_iff "case-1" lone_case status_match none

run_case-reports_example :
    (r : ReplayRunResult) × ((run_case "case-1" with_case).0 ≡ ok r)
    × (r.case_id ≡ "case-1")
    × (r.actual_match_status ≡ "BREAK")
    × (r.actual_reason_code ≡ pos_quantity_mismatch)
    × (r.expected_match_status ≡ "BREAK")
    × (r.expected_reason_code ≡ map_account_unmapped)
    × ((r.changed ≡ false) ↔ (
        (status_break ≡ lone_case.expected_match_status)
        × (reason_text (some pos_quantity_mismatch) ≡ lone_case.expected_reason_code)))
    × ((r.regression ≡ true)
        ↔ ((lone_case.expected_match_status ≢ "BREAK") × (status_break ≡ "BREAK")))
    × ((r.improvement ≡ true)
        ↔ ((lone_case.expected_match_status ≡ "BREAK") × (status_break ≢ "BREAK")))
    × ((run_case "case-1" with_case).1.tables
        ≡ record with_case.tables { replay_cases = record lone_case { status = "passing" } ∷ [] })
run_case-reports_example =
    run_case-reports quiet-IsHealthy "case-1" with_case lone_case
      (status_break, some pos_quantity_mismatch) refl lone_replayed

unmatched-changed_example :
    (assess "case-1" lone_case (status_break, some pos_quantity_mismatch)).changed ≡ true
unmatched-changed_example =
    unmatched-changed "case-1" lone_case (status_break, some pos_quantity_mismatch) refl
      lone_replayed

capture-run_example :
    let out : Result ReplayRunResult × World ℤ =
      (create_case_from_exception "exc-1" >>= λ c. run_case c.id) database in
    (report : ReplayRunResult) × (out.0 ≡ ok report) × (report.changed ≡ false)
unfolding of_row apply_rules position_rules default_config
capture-run_example =
    capture-run quiet-IsHealthy database "exc-1" quantity_exception (of_row quantity_result)
      position_run refl refl refl (refl, refl) refl ours theirs refl refl refl refl
      (refl, refl, refl) (refl, refl, refl) refl refl

-- A run over transactions that found two trades of one kind under two ids.
abbrev trade_result : ReconResultRow
trade_result = record quantity_result {
  entity_type = "transaction";
  entity_id = "t-1";
  reason_code = some txn_duplicate;
}

abbrev trade_exception : Exception
trade_exception = record quantity_exception {
  entity_type = "transaction";
  entity_id = "t-1";
  reason_code = txn_duplicate;
}

abbrev pub trades : World ℤ
trades = record database {
  tables = record database.tables {
    transactions = trade "t-1" (pos 50) "internal" ∷ trade "u-1" (pos 60) "custodian" ∷ [];
    recon_results = trade_result ∷ [];
    exceptions = trade_exception ∷ [];
  };
}

capture-run_transaction_example :
    let out : Result ReplayRunResult × World ℤ =
      (create_case_from_exception "exc-1" >>= λ c. run_case c.id) trades in
    (report : ReplayRunResult) × (out.0 ≡ ok report) × (report.changed ≡ false)
unfolding of_row apply_rules transaction_rules default_config
capture-run_transaction_example =
    capture-run_transaction quiet-IsHealthy trades "exc-1" trade_exception (of_row trade_result)
      position_run refl refl refl (refl, refl) refl (trade "t-1" (pos 50) "internal")
      (trade "u-1" (pos 60) "custodian") refl refl refl refl (refl, refl, refl, refl, refl)
      (refl, refl, refl, refl, refl) refl refl
