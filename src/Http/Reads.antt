-- ===== src/Http/Reads.antt =====
-- What the services that internal/http calls keep of the tables, whatever calls of the database fail,
-- from what their writes keep.
use trust_lot.Prelude.{ℕ, String, Option, none, some, List}
use trust_lot.Platform.{Time, Float64, Env}
use trust_lot.Model.{Position, Transaction, RawRecord, ReconRun, ReconResult, Exception}
use trust_lot.Db.Tables.{Tables}
use trust_lot.Db.Exec.{Result, ok, err}
use trust_lot.Db.Keeps.{Keeps, Keeps-pure, Keeps-query, Keeps-raise, keeps_rules}
use trust_lot.Db.Ping.{ping}
use trust_lot.Db.Records.{
  get_position, get_transaction, find_paired_position, find_paired_transaction,
}
use trust_lot.Db.Recon.{
  get_recon_run, get_recon_result_for_exception, list_recon_results_for_entity, list_recon_runs,
}
use trust_lot.Db.Exceptions.{list_exceptions, get_exception, list_exceptions_for_entity}
use trust_lot.Db.Scores.{get_trust_score_for_entity}
use trust_lot.Db.History.{list_raw_records_by_batch, get_ingestion_batch}
use trust_lot.Explain.Service.{
  pair_position, pair_transaction, explain_position_pair, explain_transaction_pair,
  explain_record_pair, with_run, with_result, explain_exception,
}
use trust_lot.Lineage.Graph.{GraphBuilder, MapOrder}
use trust_lot.Lineage.Service.{
  with_raw_records, add_raw_records, add_upstream, add_recon_results_for_entity,
  add_exceptions_for_entity, add_trust_score, add_around, add_position_lineage,
  add_transaction_lineage, entity_lineage, add_entity_lineage, exception_lineage,
  get_lineage_for_entity, get_lineage_for_exception,
}

module _ {N : Type 0} {P : Tables N → Type 0} ⦃env : Env⦄ where
  pub get_position-Keeps : (id : String) → Keeps P (get_position id)
  unfolding get_position
  get_position-Keeps id = search keeps_rules

  pub get_transaction-Keeps : (id : String) → Keeps P (get_transaction id)
  unfolding get_transaction
  get_transaction-Keeps id = search keeps_rules

  pub paired_position-Keeps :
      (a s : String) (d : Time) (source : String) → Keeps P (find_paired_position a s d source)
  unfolding find_paired_position
  paired_position-Keeps a s d source = search keeps_rules

  pub paired_transaction-Keeps :
      (a s t : String) (d : Time) (source : String)
      → Keeps P (find_paired_transaction a s t d source)
  unfolding find_paired_transaction
  paired_transaction-Keeps a s t d source = search keeps_rules

  pub get_recon_run-Keeps : (id : String) → Keeps P (get_recon_run id)
  unfolding get_recon_run
  get_recon_run-Keeps id = search keeps_rules

  pub result_for_exception-Keeps :
      (run_id ty id : String) → Keeps P (get_recon_result_for_exception run_id ty id)
  unfolding get_recon_result_for_exception
  result_for_exception-Keeps run_id ty id = search keeps_rules

  pub get_exception-Keeps : (id : String) → Keeps P (get_exception id)
  unfolding get_exception
  get_exception-Keeps id = search keeps_rules

  pub ping-Keeps : Keeps P ping
  unfolding ping
  ping-Keeps = Keeps-query _

  pub list_exceptions-Keeps : (status : String) (n : ℕ) → Keeps P (list_exceptions status n)
  unfolding list_exceptions
  list_exceptions-Keeps status n = search keeps_rules

  pub list_recon_runs-Keeps : (n : ℕ) → Keeps P (list_recon_runs n)
  unfolding list_recon_runs
  list_recon_runs-Keeps n = search keeps_rules

pub ruleset reads = (
  keeps_rules, get_position-Keeps, get_transaction-Keeps, paired_position-Keeps,
  paired_transaction-Keeps, get_recon_run-Keeps, result_for_exception-Keeps, get_exception-Keeps,
)

module _ {N : Type 0} {P : Tables N → Type 0} ⦃f : Float64 N⦄ ⦃env : Env⦄ where
  pair_position-Keeps :
      (id : String) (run : ReconRun) (p : Result (Position N)) → Keeps P (pair_position id run p)
  pair_position-Keeps id run (ok p) = search reads
  pair_position-Keeps id run (err e) = search reads

  pair_transaction-Keeps : (t : Result (Transaction N)) → Keeps P (pair_transaction t)
  pair_transaction-Keeps (ok t) = search reads
  pair_transaction-Keeps (err e) = search reads

  record_pair-Keeps : (e : Exception) (run : ReconRun) → Keeps P (explain_record_pair e run)
  unfolding explain_record_pair explain_position_pair explain_transaction_pair
  record_pair-Keeps e run = search (reads, pair_position-Keeps, pair_transaction-Keeps) depth 8

  with_run-Keeps :
      (e : Exception) (r : ReconResult) (run : Result ReconRun) → Keeps P (with_run e r run)
  with_run-Keeps e r (ok run) = search (reads, record_pair-Keeps)
  with_run-Keeps e r (err s) = Keeps-pure _

  with_result-Keeps : (e : Exception) (r : Result ReconResult) → Keeps P (with_result e r)
  with_result-Keeps e (ok r) = search (reads, with_run-Keeps)
  with_result-Keeps e (err s) = Keeps-pure _

  pub explain_exception-Keeps : (id : String) → Keeps P (explain_exception id)
  unfolding explain_exception
  explain_exception-Keeps id = search (reads, with_result-Keeps) depth 8

module _ {N : Type 0} {P : Tables N → Type 0} ⦃env : Env⦄ where
  raw_records-Keeps :
      (batch_id id : String) (b : GraphBuilder N) (r : Result (List RawRecord))
      → Keeps P (with_raw_records batch_id id b r)
  unfolding get_ingestion_batch
  raw_records-Keeps batch_id id b (ok rs) = search keeps_rules
  raw_records-Keeps batch_id id b (err e) = Keeps-pure _

  upstream-Keeps :
      (batch_id : Option String) (id : String) (b : GraphBuilder N)
      → Keeps P (add_upstream batch_id id b)
  unfolding add_raw_records list_raw_records_by_batch
  upstream-Keeps none id b = Keeps-pure _
  upstream-Keeps (some batch_id) id b = search (keeps_rules, raw_records-Keeps)

  trust_score-Keeps : (ty id : String) (b : GraphBuilder N) → Keeps P (add_trust_score ty id b)
  unfolding add_trust_score get_trust_score_for_entity
  trust_score-Keeps ty id b = search keeps_rules

  around-Keeps :
      (ty id : String) (batch_id : Option String) (b : GraphBuilder N)
      → Keeps P (add_around ty id batch_id b)
  unfolding add_recon_results_for_entity add_exceptions_for_entity list_recon_results_for_entity
      list_exceptions_for_entity
  around-Keeps ty id batch_id b = search (keeps_rules, upstream-Keeps, trust_score-Keeps) depth 12

module _ {N : Type 0} {P : Tables N → Type 0} ⦃f : Float64 N⦄ ⦃env : Env⦄ where
  position_lineage-Keeps : (id : String) (b : GraphBuilder N) → Keeps P (add_position_lineage id b)
  unfolding add_position_lineage
  position_lineage-Keeps id b = search (reads, around-Keeps)

  transaction_lineage-Keeps :
      (id : String) (b : GraphBuilder N) → Keeps P (add_transaction_lineage id b)
  unfolding add_transaction_lineage
  transaction_lineage-Keeps id b = search (reads, around-Keeps)

  entity_lineage-Keeps : (ty id : String) → Keeps P (entity_lineage ty id)
  unfolding entity_lineage
  entity_lineage-Keeps ty id =
      search (keeps_rules, position_lineage-Keeps, transaction_lineage-Keeps)

  add_entity-Keeps : (e : Exception) (b : GraphBuilder N) → Keeps P (add_entity_lineage e b)
  add_entity-Keeps e b = search (keeps_rules, position_lineage-Keeps, transaction_lineage-Keeps)

  exception_lineage-Keeps : (id : String) → Keeps P (exception_lineage id)
  unfolding exception_lineage
  exception_lineage-Keeps id = search (reads, add_entity-Keeps, trust_score-Keeps) depth 12

  pub get_lineage_for_entity-Keeps :
      ⦃o : MapOrder N⦄ (ty id : String) → Keeps P (get_lineage_for_entity ty id)
  unfolding get_lineage_for_entity
  get_lineage_for_entity-Keeps ty id = search (keeps_rules, entity_lineage-Keeps)

  pub get_lineage_for_exception-Keeps :
      ⦃o : MapOrder N⦄ (id : String) → Keeps P (get_lineage_for_exception id)
  unfolding get_lineage_for_exception
  get_lineage_for_exception-Keeps id = search (keeps_rules, exception_lineage-Keeps)
