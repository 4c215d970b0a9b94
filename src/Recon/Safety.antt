-- ===== src/Recon/Safety.antt =====
-- The tables that a run of internal/recon/engine.go reads or has no part in.
use trust_lot.Prelude.{String, Bool, Option, ◌≡◌, refl, arith}
use trust_lot.Platform.{Float64, Env}
use trust_lot.Model.{ReconRun, ReconResult, Exception}
use trust_lot.Db.Tables.{Tables, ReconConfig}
use trust_lot.Db.Exec.{World}
use trust_lot.Db.Keeps.{Keeps, Keeps-on_error, Keeps-execute, keeps_rules}
use trust_lot.Db.Recon.{update_recon_run_status, insert_recon_result}
use trust_lot.Db.Exceptions.{insert_exception, insert_exception_event, insert_lineage_edge}
use trust_lot.Recon.Persist.{raise_break, persist_result}
use trust_lot.Recon.Engine.{run}
use trust_lot.Recon.Kept.{ResultsKept, RunsKept, run-Keeps, raise_break-Keeps}

-- The tables that a reconciliation reads or has no part in.
pub record IsInput {N : Type 0} (s t : Tables N) : Type 0 where
  pub positions : t.positions ≡ s.positions
  pub transactions : t.transactions ≡ s.transactions
  pub trust_scores : t.trust_scores ≡ s.trust_scores
  pub replay_cases : t.replay_cases ≡ s.replay_cases

module _ {N : Type 0} ⦃env : Env⦄ (s : Tables N) where
  IsInput-edges : (a b c d e : String) → Keeps (IsInput s) (insert_lineage_edge a b c d e)
  unfolding insert_lineage_edge
  IsInput-edges a b c d e = Keeps-on_error _ _ (Keeps-execute _ (λ t h. ground arith))

  IsInput-events : (a b c d : String) → Keeps (IsInput s) (insert_exception_event a b c d)
  unfolding insert_exception_event
  IsInput-events a b c d = Keeps-on_error _ _ (Keeps-execute _ (λ t h. ground arith))

  IsInput-exceptions : (e : Exception) → Keeps (IsInput s) (insert_exception e)
  unfolding insert_exception
  IsInput-exceptions e = Keeps-on_error _ _ (Keeps-execute _ (λ t h. ground arith))

  IsInput-results : (r : ReconResult) → Keeps (IsInput s) (insert_recon_result r)
  unfolding insert_recon_result
  IsInput-results r = Keeps-on_error _ _ (Keeps-execute _ (λ t h. ground arith))

  IsInput-raise_break :
      (r : ReconRun) (entity_id entity_type : String) (b : Bool) (reason : Option String)
      (result_id : String)
      → Keeps (IsInput s) (raise_break r entity_id entity_type b reason result_id)
  IsInput-raise_break r entity_id entity_type b reason result_id =
      raise_break-Keeps IsInput-edges IsInput-events r entity_id entity_type b reason result_id
        (λ _ id now. IsInput-exceptions _)

  IsInput-ResultsKept : ResultsKept (IsInput s)
  unfolding persist_result
  IsInput-ResultsKept r entity_id entity_type status reason details fit =
      search (keeps_rules, IsInput-edges, IsInput-results, IsInput-raise_break) depth 12

  IsInput-RunsKept : RunsKept (IsInput s)
  unfolding update_recon_run_status
  IsInput-RunsKept id status now = Keeps-on_error _ _ (Keeps-execute _ (λ t h. ground arith))

module _ {N : Type 0} ⦃f : Float64 N⦄ ⦃env : Env⦄ (config : ReconConfig N) (id : String)
    (w : World N) where
  -- Whatever calls of the database fail, and however the run ends, a run changes no position, no
  -- transaction, no trust score and no replay case.
  pub run-IsInput : IsInput w.tables (run config id w).1.tables
  run-IsInput =
      (run-Keeps (IsInput-ResultsKept w.tables) (IsInput-RunsKept w.tables) config id).at w
        (record { positions = refl; transactions = refl; trust_scores = refl; replay_cases = refl })
