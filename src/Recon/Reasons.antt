-- ===== src/Recon/Reasons.antt =====
-- The reasons of the exceptions that internal/recon/engine.go raises.
use trust_lot.Prelude.{String, Bool, true, Option, ◌≡◌, All}
use trust_lot.Platform.{Float64, Env}
use trust_lot.Model.{ReconRun, ReconResult, Exception}
use trust_lot.Db.Tables.{Tables, ReconConfig}
use trust_lot.Db.Keeps.{Keeps, Keeps-on_error, Keeps-execute, keeps_rules}
use trust_lot.Db.Recon.{update_recon_run_status, insert_recon_result}
use trust_lot.Db.Exceptions.{
  kept_exception, insert_exception, insert_exception_event, insert_lineage_edge,
}
use trust_lot.Recon.Persist.{code_or_empty, raise_break, persist_result}
use trust_lot.Recon.Engine.{run}
use trust_lot.Recon.Fitting.{fitting}
use trust_lot.Recon.Kept.{ResultsKept, RunsKept, run-Keeps, raise_break-Keeps}
use trust_lot.Recon.Traced.{All-snoc}

-- Each exception has a reason that fits the type of its entity.
abbrev pub AllFitting : {N : Type 0} → Tables N → Type 0
AllFitting t = All (λ e. fitting e.entity_type e.reason_code ≡ true) t.exceptions

module _ {N : Type 0} ⦃env : Env⦄ where
  AllFitting-edges :
      (a b c d e : String) → Keeps (AllFitting {N = N}) (insert_lineage_edge a b c d e)
  unfolding insert_lineage_edge
  AllFitting-edges a b c d e = Keeps-on_error _ _ (Keeps-execute _ (λ t h. h))

  AllFitting-events :
      (a b c d : String) → Keeps (AllFitting {N = N}) (insert_exception_event a b c d)
  unfolding insert_exception_event
  AllFitting-events a b c d = Keeps-on_error _ _ (Keeps-execute _ (λ t h. h))

  AllFitting-results : (r : ReconResult) → Keeps (AllFitting {N = N}) (insert_recon_result r)
  unfolding insert_recon_result
  AllFitting-results r = Keeps-on_error _ _ (Keeps-execute _ (λ t h. h))

  AllFitting-exceptions :
      (e : Exception)
      → fitting e.entity_type e.reason_code ≡ true
      → Keeps (AllFitting {N = N}) (insert_exception e)
  unfolding insert_exception
  AllFitting-exceptions e k = Keeps-on_error _ _ (
      Keeps-execute _ (λ t h.
        All-snoc (λ x. fitting x.entity_type x.reason_code ≡ true) t.exceptions (kept_exception e) h
          k))

  AllFitting-raise_break :
      (r : ReconRun) (entity_id entity_type : String) (b : Bool) (reason : Option String)
      (result_id : String)
      → fitting entity_type (code_or_empty reason) ≡ true
      → Keeps (AllFitting {N = N}) (raise_break r entity_id entity_type b reason result_id)
  AllFitting-raise_break r entity_id entity_type b reason result_id k =
      raise_break-Keeps AllFitting-edges AllFitting-events r entity_id entity_type b reason
        result_id (λ _ id now. AllFitting-exceptions _ k)

  AllFitting-ResultsKept : ResultsKept (AllFitting {N = N})
  unfolding persist_result
  AllFitting-ResultsKept r entity_id entity_type status reason details fit =
      search (keeps_rules, AllFitting-edges, AllFitting-results, AllFitting-raise_break, fit) depth
        12

  AllFitting-RunsKept : RunsKept (AllFitting {N = N})
  unfolding update_recon_run_status
  AllFitting-RunsKept id status now = Keeps-on_error _ _ (Keeps-execute _ (λ t h. h))

  pub run-AllFitting :
      ⦃f : Float64 N⦄ (config : ReconConfig N) (id : String) → Keeps AllFitting (run config id)
  run-AllFitting config id = run-Keeps AllFitting-ResultsKept AllFitting-RunsKept config id
