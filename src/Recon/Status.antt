-- ===== src/Recon/Status.antt =====
-- The status that Run of internal/recon/engine.go leaves the run in, whatever calls of the database
-- fail.
use trust_lot.Prelude.{
  suc, subst, String, Bool, Option, some, List, ◌==◌, ◌≡◌, ◌⊎◌, update, refl, Option-cases, inl,
  inr,
}
use trust_lot.Platform.{Time, Float64, Env}
use trust_lot.Model.{ReconRun, ReconResult, Exception}
use trust_lot.Db.Tables.{Tables, ReconConfig}
use trust_lot.Db.Exec.{
  stored_time, World, Result, ok, err, Exec, proceed, query, time_now, raise, execute, attempt,
  on_error, ◌>>=◌,
}
use trust_lot.Db.Keeps.{Keeps, Keeps-on_error, Keeps-execute, keeps_rules}
use trust_lot.Db.Recon.{get_recon_run, update_recon_run_status, insert_recon_result}
use trust_lot.Db.Exceptions.{insert_exception, insert_exception_event, insert_lineage_edge}
use trust_lot.Recon.Persist.{raise_break, persist_result}
use trust_lot.Recon.Engine.{Progress, reconcile, finish, run}
use trust_lot.Recon.Kept.{ResultsKept, reconcile-Keeps, raise_break-Keeps}
use trust_lot.Recon.Complete.{completed}

module _ {N : Type 0} ⦃env : Env⦄ (s : List ReconRun) where
  abbrev RunsStay : Tables N → Type 0
  RunsStay t = t.recon_runs ≡ s

  stay-edges : (a b c d e : String) → Keeps RunsStay (insert_lineage_edge a b c d e)
  unfolding insert_lineage_edge
  stay-edges a b c d e = Keeps-on_error _ _ (Keeps-execute _ (λ t h. h))

  stay-events : (a b c d : String) → Keeps RunsStay (insert_exception_event a b c d)
  unfolding insert_exception_event
  stay-events a b c d = Keeps-on_error _ _ (Keeps-execute _ (λ t h. h))

  stay-exceptions : (e : Exception) → Keeps RunsStay (insert_exception e)
  unfolding insert_exception
  stay-exceptions e = Keeps-on_error _ _ (Keeps-execute _ (λ t h. h))

  stay-results : (r : ReconResult) → Keeps RunsStay (insert_recon_result r)
  unfolding insert_recon_result
  stay-results r = Keeps-on_error _ _ (Keeps-execute _ (λ t h. h))

  stay-raise_break :
      (r : ReconRun) (entity_id entity_type : String) (b : Bool) (reason : Option String)
      (result_id : String)
      → Keeps RunsStay (raise_break r entity_id entity_type b reason result_id)
  stay-raise_break r entity_id entity_type b reason result_id =
      raise_break-Keeps stay-edges stay-events r entity_id entity_type b reason result_id
        (λ _ id now. stay-exceptions _)

  stay-ResultsKept : ResultsKept RunsStay
  unfolding persist_result
  stay-ResultsKept r entity_id entity_type status reason details fit =
      search (keeps_rules, stay-edges, stay-results, stay-raise_break) depth 12

abbrev failed : Time → ReconRun → ReconRun
failed now x = record x { status = "failed"; completed_at = some (stored_time now) }

-- The runs after Run of one of them, by the result of Run.
abbrev pub Settled : String → List ReconRun → Result (Unit {0}) → List ReconRun → Type 0
Settled id before (ok _) after =
    (now : Time) × (after ≡ update (λ x. x.id == id) (completed now) before)
Settled id before (err e) after =
    (after ≡ before) ⊎ ((now : Time) × (after ≡ update (λ x. x.id == id) (failed now) before))

module _ {N : Type 0} ⦃f : Float64 N⦄ ⦃env : Env⦄ (config : ReconConfig N) (id : String) where
  finish-Settled :
      (now : Time) (outcome : Result Progress) (w : World N)
      → Settled id w.tables.recon_runs
          (finish id now outcome w).0
          (finish id now outcome w).1.tables.recon_runs
  unfolding finish update_recon_run_status execute attempt on_error ◌>>=◌ raise
  finish-Settled now (ok p) w = elim (Option-cases (env.fault w.calls)) [
    | inl e ↦ simp e (now, refl)
    | inr (s, e) ↦ simp e (inl refl)
  ]
  finish-Settled now (err e) w = elim (Option-cases (env.fault w.calls)) [
    | inl h ↦ simp h (inr (now, refl))
    | inr (s, h) ↦ simp h (inl refl)
  ]

  -- What Run does with the run that it has loaded.
  settle : ReconRun → Exec N (Unit {0})
  settle r = do outcome ← attempt (reconcile config r); now ← time_now; finish id now outcome

  settle-Settled :
      (r : Result ReconRun) (w : World N)
      → let end : Result (Unit {0}) × World N = proceed (r, w) settle in
        Settled id w.tables.recon_runs end.0 end.1.tables.recon_runs
  unfolding settle attempt time_now ◌>>=◌
  settle-Settled (err e) w = inl refl
  settle-Settled (ok r) w =
      subst (λ before. Settled id before (settle r w).0 (settle r w).1.tables.recon_runs)
        ((reconcile-Keeps (stay-ResultsKept w.tables.recon_runs) config r).at w refl)
        (finish-Settled _ (reconcile config r w).0 _)

  -- Whatever calls of the database fail: if Run returns no error, then it has set the run, and no
  -- other, to completed; if it returns an error, then the runs are as before, or it has set the run,
  -- and no other, to failed.
  pub run-Settled :
      (w : World N)
      → Settled id w.tables.recon_runs (run config id w).0 (run config id w).1.tables.recon_runs
  unfolding run settle get_recon_run query on_error ◌>>=◌
  run-Settled w = settle-Settled _ (record w { calls = suc w.calls })
