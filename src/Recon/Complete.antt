-- ===== src/Recon/Complete.antt =====
-- A whole run of internal/recon/engine.go where the database serves every call: its result, the
-- status of the run, and what stands in recon_results and exceptions behind it.
use trust_lot.Prelude.{
  ℕ, suc, String, some, ◌&&◌, List, ◌++◌, map, ◌==◌, eqb, ◌≡◌, refl, ◌⊎◌, inl, inr, ◌∙◌, ap, arith,
  find, keep, update, sort_by, if◌then◌else◌,
}
use trust_lot.Platform.{Time, Float64, Env, IsHealthy}
use trust_lot.Model.{Position, Transaction, ReconRun}
use trust_lot.Db.Tables.{Tables, ReconConfig}
use trust_lot.Db.Exec.{
  stored_time, Result, ok, err, World, Exec, proceed, pure, query, execute, attempt, time_now,
  on_error, ◌>>=◌,
}
use trust_lot.Db.Records.{
  position_less, transaction_less, list_positions_by_source, list_transactions_by_source,
}
use trust_lot.Db.Recon.{get_recon_run, update_recon_run_status}
use trust_lot.Recon.Pairing.{sorts_before, transaction_sorts_before}
use trust_lot.Recon.Engine.{
  Kind, Progress, reconcile_pairs, position_kind, transaction_kind, reconcile_positions,
  reconcile_transactions, reconcile, finish, run,
}
use trust_lot.Recon.Outcomes.{Outcome, outcomes}
use trust_lot.Recon.Loops.{counts, tally, reconcile_pairs-eq}
use trust_lot.Recon.Recorded.{
  reported, raised, report_of, raises_of, recorded, persist_all-healthy, results-recorded,
  exceptions-recorded, runs-recorded,
}

-- A return of the mapped action is a return of the action.
map-eq-ok :
    {N A B : Type 0} (g : A → B) (r : Result A) (w w' : World N) (b : B)
    → ◌≡◌ {A = Result B × World N} (proceed (r, w) (λ a. pure (g a))) (ok b, w')
    → (a : A) × (◌≡◌ {A = Result A × World N} (r, w) (ok a, w')) × (g a ≡ b)
unfolding pure
map-eq-ok g (ok a) w w' b h = (a, ground arith, ground arith)
map-eq-ok g (err e) w w' b h = absurd (ground arith)

module _ {N A : Type 0} ⦃env : Env⦄ (healthy : IsHealthy env) where
  pub reconcile_pairs-healthy :
      (kind : Kind N A) (config : ReconConfig N) (r : ReconRun) (internal custodian : List A)
      (w : World N)
      → (p : Progress) × (reconcile_pairs kind config r internal custodian w
          ≡ (ok p, recorded r kind.entity_type (outcomes kind config internal custodian) w))
        × (counts p ≡ tally (outcomes kind config internal custodian))
  unfolding ◌>>=◌ pure
  reconcile_pairs-healthy kind config r internal custodian w =
      let os = outcomes kind config internal custodian in
      let done = reconcile_pairs kind config r internal custodian w in
      map-eq-ok counts done.0 done.1 (recorded r kind.entity_type os w) (tally os) (
        ap (λ (m : Exec N (ℕ × ℕ)). m w) (reconcile_pairs-eq kind config internal custodian r)
        ∙ rw (persist_all-healthy r kind.entity_type healthy os w))

abbrev pub completed : Time → ReconRun → ReconRun
completed now x = record x { status = "completed"; completed_at = some (stored_time now) }

-- An entity type that the engine reconciles.
abbrev pub IsSupported : String → Type 0
IsSupported ty = (ty ≡ "position") ⊎ (ty ≡ "transaction")

module _ {N : Type 0} ⦃f : Float64 N⦄ ⦃env : Env⦄ where
  -- The records of one side as the engine sees them: those of the source and day, sorted.
  unfoldable pub loaded_positions : String → Time → Tables N → List (Position N)
  loaded_positions source day t =
      sort_by sorts_before
        (sort_by position_less (keep (λ p. p.source == source && eqb p.as_of_date day) t.positions))

  unfoldable pub loaded_transactions : String → Time → Tables N → List (Transaction N)
  loaded_transactions source day t = sort_by transaction_sorts_before (
      sort_by transaction_less
        (keep (λ x. x.source == source && eqb x.trade_date day) t.transactions))

  -- What a run has to report.
  unfoldable pub run_outcomes : ReconConfig N → ReconRun → Tables N → List Outcome
  unfolding loaded_positions loaded_transactions
  run_outcomes config r t =
      if r.entity_type == "position"
      then outcomes position_kind config (loaded_positions "internal" r.as_of_date t)
          (loaded_positions "custodian" r.as_of_date t)
      else outcomes transaction_kind config (loaded_transactions "internal" r.as_of_date t)
          (loaded_transactions "custodian" r.as_of_date t)

  module _ (healthy : IsHealthy env) (config : ReconConfig N) (r : ReconRun) (w : World N) where
    -- The world once the two lists are loaded.
    abbrev loaded : World N
    loaded = record w { calls = suc (suc w.calls) }

    positions-loaded :
        reconcile_positions config r w
        ≡ reconcile_pairs position_kind config r
            (loaded_positions "internal" r.as_of_date w.tables)
            (loaded_positions "custodian" r.as_of_date w.tables)
            loaded
    unfolding reconcile_positions list_positions_by_source query on_error ◌>>=◌ loaded_positions
    positions-loaded = simp healthy

    transactions-loaded :
        reconcile_transactions config r w
        ≡ reconcile_pairs transaction_kind config r
            (loaded_transactions "internal" r.as_of_date w.tables)
            (loaded_transactions "custodian" r.as_of_date w.tables)
            loaded
    unfolding reconcile_transactions list_transactions_by_source query on_error ◌>>=◌
        loaded_transactions
    transactions-loaded = simp healthy

    reconcile-healthy :
        IsSupported r.entity_type
        → (p : Progress) × (reconcile config r w
            ≡ (ok p, recorded r r.entity_type (run_outcomes config r w.tables) loaded))
    unfolding reconcile run_outcomes position_kind transaction_kind
    reconcile-healthy (inl e) =
        let (p, done, _) =
          reconcile_pairs-healthy healthy position_kind config r
            (loaded_positions "internal" r.as_of_date w.tables)
            (loaded_positions "custodian" r.as_of_date w.tables) loaded in
        (p, simp e (positions-loaded ∙ done))
    reconcile-healthy (inr e) =
        let (p, done, _) =
          reconcile_pairs-healthy healthy transaction_kind config r
            (loaded_transactions "internal" r.as_of_date w.tables)
            (loaded_transactions "custodian" r.as_of_date w.tables) loaded in
        (p, simp e (transactions-loaded ∙ done))

  -- The world after a run that completes, from the world where its outcomes are recorded.
  abbrev after_run : String → World N → World N
  after_run id end = record end {
    tables = record end.tables {
      recon_runs = update (λ x. x.id == id) (completed (env.now end.ticks)) end.tables.recon_runs;
    };
    calls = suc end.calls;
    ticks = suc end.ticks;
  }

  unfoldable pub recorded_world : ReconConfig N → ReconRun → World N → World N
  recorded_world config r w =
      recorded r r.entity_type (run_outcomes config r w.tables)
        (record w { calls = suc (suc (suc w.calls)) })

  pub run-ends :
      IsHealthy env
      → (config : ReconConfig N) (id : String) (w : World N) (r : ReconRun)
      → find (λ x. x.id == id) w.tables.recon_runs ≡ some r
      → IsSupported r.entity_type
      → run config id w ≡ (ok tt, after_run id (recorded_world config r w))
  unfolding run finish get_recon_run update_recon_run_status query execute attempt time_now on_error
      ◌>>=◌ recorded_world
  run-ends healthy config id w r found supported =
      let ran : World N = record w { calls = suc w.calls } in
      let (p, done) = reconcile-healthy healthy config r ran supported in
      simp (healthy, found, done)

  -- Where the database serves every call, the run is found and its entity type is supported, Run
  -- returns no error; it appends to recon_results just the outcomes of the records loaded, in their
  -- order, and to exceptions one open exception for each break; and it sets the run, and no other,
  -- to completed.
  pub run-completes :
      IsHealthy env
      → (config : ReconConfig N) (id : String) (w : World N) (r : ReconRun)
      → find (λ x. x.id == id) w.tables.recon_runs ≡ some r
      → IsSupported r.entity_type
      → let after = (run config id w).1.tables in
        ((run config id w).0 ≡ ok tt)
        × (map reported after.recon_results
            ≡ map reported w.tables.recon_results
              ++ map (report_of r r.entity_type) (run_outcomes config r w.tables))
        × (map raised after.exceptions
            ≡ map raised w.tables.exceptions
              ++ raises_of r r.entity_type (run_outcomes config r w.tables))
        × ((now : Time) × (after.recon_runs
              ≡ update (λ x. x.id == id) (completed now) w.tables.recon_runs))
  unfolding recorded_world
  run-completes healthy config id w r found supported =
      rw (run-ends healthy config id w r found supported) (
        refl,
        results-recorded _ _ _ _,
        exceptions-recorded _ _ _ _,
        (
          env.now (recorded_world config r w).ticks,
          ap (update (λ x. x.id == id) (completed (env.now (recorded_world config r w).ticks)))
              (runs-recorded _ _ _ _),
        ),
      )
