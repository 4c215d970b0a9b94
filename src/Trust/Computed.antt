-- ===== src/Trust/Computed.antt =====
-- The scores that internal/trust/service.go computes from what the database holds.
use trust_lot.Prelude.{
  ℕ, suc, String, Bool, Option, none, some, ◌&&◌, map, ap, ◌==◌, eq_iff, ◌≡◌, refl, sym, ◌∙◌, arith,
  find, find_holds, Bool-cases, inl, inr, if◌then◌else◌,
}
use trust_lot.Platform.{Time, Float64, Env, IsHealthy}
use trust_lot.Model.{Position, Transaction, ReconRun, ReconResult, Exception}
use trust_lot.Db.Exec.{ok, World, pure, on_error, query, attempt, time_now, ◌>>=◌}
use trust_lot.Db.Records.{get_position, get_transaction}
use trust_lot.Db.Recon.{of_row, get_recon_run, get_recon_result, get_recon_result_for_exception}
use trust_lot.Db.Exceptions.{get_exception, find_exception_for_entity}
use trust_lot.Trust.Service.{
  input_of, compute_and_persist, position_signals, transaction_signals, lookup_exception_status,
  entity_signals, compute_for_recon_result, compute_for_exception,
}
use trust_lot.Trust.Evidence.{
  of_position, of_transaction, signals_in, evidence, status_or_empty, is_about, latest_exception,
}

-- The calls of the database up to the signals.
abbrev signal_calls : String → ℕ → ℕ
signal_calls entity_type n =
    if entity_type == "position" then suc n else if entity_type == "transaction" then suc n else n

abbrev pub is_result_of : Exception → ReconResult → Bool
is_result_of e r =
    r.run_id == e.recon_run_id && r.entity_type == e.entity_type && r.entity_id == e.entity_id

module _ {N : Type 0} ⦃f : Float64 N⦄ ⦃env : Env⦄ (healthy : IsHealthy env) where
  found_position :
      (id : String) (day : Time) (w : World N) (o : Option (Position N))
      → find (λ p. p.id == id) w.tables.positions ≡ o
      → (attempt (get_position id) >>= (λ p. pure (position_signals day p))) w
        ≡ (ok (of_position day o), record w { calls = suc w.calls })
  unfolding get_position on_error query attempt pure ◌>>=◌
  found_position id day w none h = simp (healthy, h)
  found_position id day w (some p) h = simp (healthy, h)

  found_transaction :
      (id : String) (day : Time) (w : World N) (o : Option (Transaction N))
      → find (λ x. x.id == id) w.tables.transactions ≡ o
      → (attempt (get_transaction id) >>= (λ x. pure (transaction_signals day x))) w
        ≡ (ok (of_transaction day o), record w { calls = suc w.calls })
  unfolding get_transaction on_error query attempt pure ◌>>=◌
  found_transaction id day w none h = simp (healthy, h)
  found_transaction id day w (some t) h = simp (healthy, h)

  entity_signals-known :
      (entity_type id : String) (day : Time) (w : World N)
      → entity_signals entity_type id day w ≡ (
        ok (signals_in w.tables entity_type id day),
        record w { calls = signal_calls entity_type w.calls },
      )
  unfolding entity_signals pure
  entity_signals-known ty id day w = elim (Bool-cases (ty == "position")) [
    | inl e ↦ simp (e, found_position id day w _ refl)
    | inr e ↦ elim (Bool-cases (ty == "transaction")) [
      | inl e' ↦ simp (e, e', found_transaction id day w _ refl)
      | inr e' ↦ simp (e, e')
    ]
  ]

  status_looked_up :
      (r : ReconResult) (w : World N) (o : Option Exception)
      → latest_exception w.tables r ≡ o
      → lookup_exception_status r.run_id r.entity_type r.entity_id w
        ≡ (ok (status_or_empty o), record w { calls = suc w.calls })
  unfolding lookup_exception_status find_exception_for_entity on_error query attempt pure ◌>>=◌
  status_looked_up r w none h = simp (healthy, h)
  status_looked_up r w (some e) h = simp (healthy, h)

  -- The world in which the score is written, after three calls and those of the signals.
  abbrev scored_in : String → World N → World N
  scored_in entity_type w = record w {
    calls = signal_calls entity_type (suc (suc (suc w.calls)));
    ticks = suc w.ticks;
  }

  for_exception :
      (w : World N) (r : ReconResult) (run : ReconRun) (id : String) (e : Exception)
      → find (λ x. x.id == e.recon_run_id) w.tables.recon_runs ≡ some run
      → find (λ x. x.id == id) w.tables.exceptions ≡ some e
      → find (is_result_of e) (map of_row w.tables.recon_results) ≡ some r
      → compute_for_exception id w
        ≡ compute_and_persist e.entity_type e.entity_id
            (input_of r.status r.reason_code
              (signals_in w.tables e.entity_type e.entity_id run.as_of_date)
              (env.now w.ticks)
              e.status)
            (scored_in e.entity_type w)
  unfolding compute_for_exception get_exception get_recon_result_for_exception get_recon_run
      on_error query time_now ◌>>=◌
  for_exception w r run id e run_found found result = simp (
    healthy,
    found,
    run_found,
    result,
    entity_signals-known e.entity_type e.entity_id run.as_of_date
        (record w { calls = suc (suc (suc w.calls)) }),
  )

  module _ (w : World N) (r : ReconResult) (run : ReconRun)
      (run_found : find (λ x. x.id == r.run_id) w.tables.recon_runs ≡ some run) where
    for_result :
        (id : String) (o : Option Exception)
        → find (λ x. x.id == id) (map of_row w.tables.recon_results) ≡ some r
        → latest_exception w.tables r ≡ o
        → compute_for_recon_result id w
          ≡ compute_and_persist r.entity_type r.entity_id
              (evidence w.tables r run (status_or_empty o) (env.now w.ticks))
              (scored_in r.entity_type w)
    unfolding compute_for_recon_result get_recon_result get_recon_run on_error query time_now ◌>>=◌
    for_result id o found latest = simp (
      healthy,
      found,
      run_found,
      status_looked_up r (record w { calls = suc (suc w.calls) }) o latest,
      entity_signals-known r.entity_type r.entity_id run.as_of_date
          (record w { calls = suc (suc (suc w.calls)) }),
    )

    -- The two ways to a score agree. Where the database serves every call and holds the result, its run
    -- and an exception, the exception is the one on the result's record in its run that was updated
    -- last, and the result is the first on the exception's record in its run: then ComputeForException
    -- and ComputeForReconResult return the same and leave the same database.
    pub compute_for_exception-compute_for_recon_result :
        (id : String) (e : Exception)
        → find (λ x. x.id == id) (map of_row w.tables.recon_results) ≡ some r
        → find (λ x. x.id == e.id) w.tables.exceptions ≡ some e
        → latest_exception w.tables r ≡ some e
        → find (is_result_of e) (map of_row w.tables.recon_results) ≡ some r
        → compute_for_exception e.id w ≡ compute_for_recon_result id w
    compute_for_exception-compute_for_recon_result id e found e_found latest result =
        let about = find_holds (is_about r) _ e latest in
        let runs : e.recon_run_id ≡ r.run_id = ground (arith, eq_iff e.recon_run_id r.run_id) in
        let types : e.entity_type ≡ r.entity_type =
          ground (arith, eq_iff e.entity_type r.entity_type) in
        let ids : e.entity_id ≡ r.entity_id = ground (arith, eq_iff e.entity_id r.entity_id) in
        for_exception w r run e.id e
          (ap (λ x. find (λ y. y.id == x) w.tables.recon_runs) runs ∙ run_found) e_found result
        ∙ ((λ i.
              compute_and_persist (types i) (ids i)
                (input_of r.status r.reason_code
                  (signals_in w.tables (types i) (ids i) run.as_of_date) (env.now w.ticks) e.status)
                (scored_in (types i) w))
            ∙ sym (for_result id (some e) found latest))
