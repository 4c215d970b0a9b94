-- ===== src/Explain/Service.antt =====
-- internal/explain/service.go.
use trust_lot.Prelude.{String, Option, none, some, ◌==◌, if◌then◌else◌}
use trust_lot.Platform.{Float64, Env}
use trust_lot.Model.{Position, Transaction, ReconRun, ReconResult, Exception}
use trust_lot.Db.Exec.{Result, ok, err, Exec, pure, with_context, attempt, ◌>>=◌}
use trust_lot.Db.Records.{
  get_position, get_transaction, find_paired_position, find_paired_transaction,
}
use trust_lot.Db.Recon.{get_recon_run, get_recon_result_for_exception}
use trust_lot.Db.Exceptions.{get_exception}
use trust_lot.Explain.Report.{AnyRecord, a_position, a_transaction, Explanation}
use trust_lot.Explain.Builders.{build_explanation}

-- `model.ReconResult{}`
abbrev pub no_result : ReconResult
no_result = record {
  id = "";
  run_id = "";
  entity_type = "";
  entity_id = "";
  status = "";
  reason_code = "";
  details = "";
}

abbrev pub Pair : Type 0 → Type 0
Pair N = Option (AnyRecord N) × Option (AnyRecord N)

abbrev pub no_pair : {N : Type 0} → Pair N
no_pair = (none, none)

abbrev pub opposite_source : String → String
opposite_source source = if source == "custodian" then "internal" else "custodian"

-- The record and its pair, in the order internal, custodian.
abbrev pub sides : {N : Type 0} → String → AnyRecord N → Option (AnyRecord N) → Pair N
sides source x paired = if source == "internal" then (some x, paired) else (paired, some x)

abbrev pub found_position : {N : Type 0} → Result (Position N) → Option (AnyRecord N)
found_position (ok p) = some (a_position p)
found_position (err e) = none

abbrev pub found_transaction : {N : Type 0} → Result (Transaction N) → Option (AnyRecord N)
found_transaction (ok t) = some (a_transaction t)
found_transaction (err e) = none

module _ {N : Type 0} ⦃env : Env⦄ where
  -- After an error the position is loaded once more, as the custodian's.
  abbrev pub pair_position : String → ReconRun → Result (Position N) → Exec N (Pair N)
  pair_position entity_id run (err e) =
      attempt (get_position entity_id) >>= (λ second. pure (none, found_position second))
  pair_position entity_id run (ok p) =
      attempt
        (find_paired_position p.account_id p.security_id run.as_of_date (opposite_source p.source))
      >>= (λ q. pure (sides p.source (a_position p) (found_position q)))

  unfoldable pub explain_position_pair : String → ReconRun → Exec N (Pair N)
  explain_position_pair entity_id run =
      attempt (get_position entity_id) >>= pair_position entity_id run

  abbrev pub pair_transaction : Result (Transaction N) → Exec N (Pair N)
  pair_transaction (err e) = pure no_pair
  pair_transaction (ok t) =
      attempt (
        find_paired_transaction t.account_id t.security_id t.txn_type t.trade_date
          (opposite_source t.source))
      >>= (λ u. pure (sides t.source (a_transaction t) (found_transaction u)))

  unfoldable pub explain_transaction_pair : String → Exec N (Pair N)
  explain_transaction_pair entity_id = attempt (get_transaction entity_id) >>= pair_transaction

  unfoldable pub explain_record_pair : Exception → ReconRun → Exec N (Pair N)
  unfolding explain_position_pair explain_transaction_pair
  explain_record_pair e run =
      if e.entity_type == "position"
      then explain_position_pair e.entity_id run
      else if e.entity_type == "transaction"
      then explain_transaction_pair e.entity_id
      else pure no_pair

module _ {N : Type 0} ⦃f : Float64 N⦄ ⦃env : Env⦄ where
  abbrev pub with_run : Exception → ReconResult → Result ReconRun → Exec N (Option Explanation)
  with_run e r (err s) = pure (build_explanation {N = N} e r none none)
  with_run e r (ok run) =
      explain_record_pair e run >>= (λ pair. pure (build_explanation e r pair.0 pair.1))

  abbrev pub with_result : Exception → Result ReconResult → Exec N (Option Explanation)
  with_result e (err s) = pure (build_explanation {N = N} e no_result none none)
  with_result e (ok r) = attempt (get_recon_run e.recon_run_id) >>= with_run e r

  -- An error of a later lookup leads to a partial explanation; `none` is a panic of a builder.
  unfoldable pub explain_exception : String → Exec N (Option Explanation)
  unfolding explain_record_pair build_explanation
  explain_exception exception_id = do
    e ← with_context "load exception" (get_exception exception_id)
    found ← attempt (get_recon_result_for_exception e.recon_run_id e.entity_type e.entity_id)
    with_result e found
