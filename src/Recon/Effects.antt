-- ===== src/Recon/Effects.antt =====
-- What persistResult and createException of internal/recon/engine.go leave in the tables where the
-- database serves every call.
use trust_lot.Prelude.{
  suc, String, Bool, true, false, Option, none, some, [], ◌∷◌, ◌++◌, ◌==◌, ◌≡◌, refl, concat,
}
use trust_lot.Platform.{Env, IsHealthy}
use trust_lot.Model.{ReconRun}
use trust_lot.Model.ReasonCode.{status_break}
use trust_lot.Db.Tables.{ReconResultRow}
use trust_lot.Db.Exec.{
  stored_time, ok, World, pure, attempt, execute, generate_id, time_now, on_error, ◌>>=◌,
}
use trust_lot.Db.Recon.{insert_recon_result, to_row}
use trust_lot.Db.Exceptions.{insert_exception, insert_exception_event, insert_lineage_edge}
use trust_lot.Recon.Persist.{code_or_empty, create_exception, raise_break, persist_result}

-- The row that persistResult inserts.
abbrev pub result_row :
    ReconRun → String → String → String → Option String → String → String → ReconResultRow
result_row run entity_id entity_type status reason details result_id = to_row (record {
  id = result_id;
  run_id = run.id;
  entity_type = entity_type;
  entity_id = entity_id;
  status = status;
  reason_code = code_or_empty reason;
  details = details;
})

module _ {N : Type 0} ⦃env : Env⦄ where
  -- The tables and counters after createException.
  unfoldable pub after_exception : ReconRun → String → String → String → String → World N → World N
  after_exception run entity_id entity_type rc result_id w = record {
    tables = record w.tables {
      exceptions =
          w.tables.exceptions
          ++ record {
            id = exc_id;
            recon_run_id = run.id;
            entity_type = entity_type;
            entity_id = entity_id;
            reason_code = rc;
            status = "open";
            assigned_to = "";
            created_at = stored_time (env.now w.ticks);
            updated_at = stored_time (env.now w.ticks);
          }
            ∷ [];
      exception_events =
          w.tables.exception_events
          ++ record {
            exception_id = exc_id;
            event_type = "created";
            actor = "system";
            detail = concat ("{\"reason_code\":\"" ∷ rc ∷ "\"}" ∷ []);
          }
            ∷ [];
      lineage_edges =
          w.tables.lineage_edges
          ++ record {
            source_type = "recon_result";
            source_id = result_id;
            target_type = "exception";
            target_id = exc_id;
            relation = "raised_exception";
          }
            ∷ [];
    };
    calls = suc (suc (suc w.calls));
    ids = suc w.ids;
    ticks = suc w.ticks;
  }
    where
      exc_id : String
      exc_id = env.fresh_id w.ids

  create_exception-healthy :
      IsHealthy env
      → (run : ReconRun) (entity_id entity_type rc result_id : String) (w : World N)
      → create_exception run entity_id entity_type rc result_id w
        ≡ (ok tt, after_exception run entity_id entity_type rc result_id w)
  unfolding create_exception after_exception ◌>>=◌ insert_exception insert_exception_event
      insert_lineage_edge execute attempt pure generate_id time_now on_error
  create_exception-healthy h run entity_id entity_type rc result_id w = simp h

  -- The tables and counters after the insertion of a result, before its exception.
  unfoldable pub after_insert :
      ReconRun → String → String → String → Option String → String → World N → World N
  after_insert run entity_id entity_type status reason details w = record {
    tables = record w.tables {
      recon_results =
          w.tables.recon_results
          ++ result_row run entity_id entity_type status reason details (env.fresh_id w.ids) ∷ [];
      lineage_edges =
          w.tables.lineage_edges
          ++ record {
            source_type = entity_type;
            source_id = entity_id;
            target_type = "recon_result";
            target_id = env.fresh_id w.ids;
            relation = "reconciled_as";
          }
            ∷ [];
    };
    calls = suc (suc w.calls);
    ids = suc w.ids;
    ticks = w.ticks;
  }

  unfoldable pub after_break :
      ReconRun → String → String → Bool → Option String → String → World N → World N
  unfolding after_exception
  after_break run entity_id entity_type true (some rc) result_id w =
      after_exception run entity_id entity_type rc result_id w
  after_break run entity_id entity_type true none result_id w = w
  after_break run entity_id entity_type false reason result_id w = w

  -- The tables and counters after persistResult.
  unfoldable pub after_result :
      ReconRun → String → String → String → Option String → String → World N → World N
  unfolding after_insert after_break
  after_result run entity_id entity_type status reason details w =
      after_break run entity_id entity_type (status == status_break) reason (env.fresh_id w.ids)
        (after_insert run entity_id entity_type status reason details w)

  raise_break-healthy :
      IsHealthy env
      → (run : ReconRun) (entity_id entity_type : String) (b : Bool) (reason : Option String)
        (result_id : String) (w : World N)
      → raise_break run entity_id entity_type b reason result_id w
        ≡ (ok tt, after_break run entity_id entity_type b reason result_id w)
  unfolding raise_break after_break pure
  raise_break-healthy h run entity_id entity_type true (some rc) result_id w =
      create_exception-healthy h run entity_id entity_type rc result_id w
  raise_break-healthy h run entity_id entity_type true none result_id w = refl
  raise_break-healthy h run entity_id entity_type false reason result_id w = refl

  pub persist_result-healthy :
      IsHealthy env
      → (run : ReconRun) (entity_id entity_type status : String) (reason : Option String)
        (details : String) (w : World N)
      → persist_result run entity_id entity_type status reason details w
        ≡ (ok tt, after_result run entity_id entity_type status reason details w)
  unfolding persist_result after_result after_insert ◌>>=◌ insert_recon_result insert_lineage_edge
      execute attempt generate_id on_error to_row
  persist_result-healthy h run entity_id entity_type status reason details w =
      simp (h, raise_break-healthy h)
