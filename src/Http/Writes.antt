-- ===== src/Http/Writes.antt =====
-- What the services that internal/http calls keep of the tables where they write scores and replay
-- cases.
use trust_lot.Prelude.{ℕ, String}
use trust_lot.Platform.{Time, Float64, Env}
use trust_lot.Model.{ReconRun, Exception}
use trust_lot.Db.Tables.{Tables, TrustScoreRow, ReplayCaseRow}
use trust_lot.Db.Exec.{Result, ok, err}
use trust_lot.Db.Keeps.{Keeps, Keeps-pure, Keeps-raise, keeps_rules}
use trust_lot.Db.Recon.{get_recon_result}
use trust_lot.Db.Exceptions.{find_exception_for_entity}
use trust_lot.Db.Scores.{upsert_trust_score, list_trust_scores}
use trust_lot.Db.Replays.{
  insert_replay_case, get_replay_case, list_replay_cases, update_replay_case_status,
}
use trust_lot.Trust.Scorer.{ReconInput}
use trust_lot.Trust.Service.{
  compute_and_persist, lookup_exception_status, list_scores, entity_signals,
  compute_for_recon_result, compute_for_exception,
}
use trust_lot.Replay.Service.{
  load_position_pair, load_transaction_pair, lift, load_record_pair, list_cases, get_case,
  create_case_from_exception, run_case,
}
use trust_lot.Http.Reads.{reads}

module _ {N : Type 0} {P : Tables N → Type 0} ⦃f : Float64 N⦄ ⦃env : Env⦄ where
  entity_signals-Keeps : (ty id : String) (d : Time) → Keeps P (entity_signals ty id d)
  unfolding entity_signals
  entity_signals-Keeps ty id d = search reads depth 8

module _ {N : Type 0} {P : Tables N → Type 0} ⦃f : Float64 N⦄ ⦃env : Env⦄
    (scores : (ts : TrustScoreRow) → Keeps P (upsert_trust_score ts)) where
  persist-Keeps : (ty id : String) (i : ReconInput) → Keeps P (compute_and_persist ty id i)
  unfolding compute_and_persist
  persist-Keeps ty id i = search (keeps_rules, scores)

  pub compute_for_recon_result-Keeps : (id : String) → Keeps P (compute_for_recon_result id)
  unfolding compute_for_recon_result lookup_exception_status get_recon_result
      find_exception_for_entity
  compute_for_recon_result-Keeps id = search (reads, entity_signals-Keeps, persist-Keeps) depth 16

  pub compute_for_exception-Keeps : (id : String) → Keeps P (compute_for_exception id)
  unfolding compute_for_exception
  compute_for_exception-Keeps id = search (reads, entity_signals-Keeps, persist-Keeps) depth 16

module _ {N : Type 0} {P : Tables N → Type 0} ⦃env : Env⦄ where
  pub list_scores-Keeps : (n : ℕ) → Keeps P (list_scores n)
  unfolding list_scores list_trust_scores
  list_scores-Keeps n = search keeps_rules

  pub list_cases-Keeps : Keeps P list_cases
  unfolding list_cases list_replay_cases
  list_cases-Keeps = search keeps_rules

  pub get_case-Keeps : (id : String) → Keeps P (get_case id)
  unfolding get_case get_replay_case
  get_case-Keeps id = search keeps_rules

  lift-Keeps : {A : Type 0} (r : Result A) → Keeps P (lift {N = N} r)
  lift-Keeps (ok a) = Keeps-pure a
  lift-Keeps (err e) = Keeps-raise e

module _ {N : Type 0} {P : Tables N → Type 0} ⦃f : Float64 N⦄ ⦃env : Env⦄ where
  load_record_pair-Keeps : (e : Exception) (run : ReconRun) → Keeps P (load_record_pair e run)
  unfolding load_record_pair load_position_pair load_transaction_pair
  load_record_pair-Keeps e run = search (reads, lift-Keeps) depth 16

module _ {N : Type 0} {P : Tables N → Type 0} ⦃f : Float64 N⦄ ⦃env : Env⦄
    (cases : (rc : ReplayCaseRow N) → Keeps P (insert_replay_case rc)) where
  pub create_case-Keeps : (id : String) → Keeps P (create_case_from_exception id)
  unfolding create_case_from_exception
  create_case-Keeps id = search (reads, lift-Keeps, load_record_pair-Keeps, cases) depth 20

module _ {N : Type 0} {P : Tables N → Type 0} ⦃f : Float64 N⦄ ⦃env : Env⦄
    (statuses : (id status : String) → Keeps P (update_replay_case_status id status)) where
  pub run_case-Keeps : (id : String) → Keeps P (run_case id)
  unfolding run_case get_replay_case
  run_case-Keeps id = search (keeps_rules, lift-Keeps, statuses) depth 16
