-- ===== src/Recon/Persist.antt =====
-- internal/recon/engine.go: persistResult, persistBreak and createException.
use trust_lot.Prelude.{String, Bool, true, false, Option, none, some, [], ◌∷◌, ◌==◌, concat}
use trust_lot.Platform.{Env}
use trust_lot.Model.{ReconRun}
use trust_lot.Model.ReasonCode.{status_break}
use trust_lot.Db.Exec.{Exec, pure, with_context, attempt, generate_id, time_now, ◌>>=◌, ◌>>◌}
use trust_lot.Db.Recon.{insert_recon_result}
use trust_lot.Db.Exceptions.{insert_exception, insert_exception_event, insert_lineage_edge}

-- `rc := ReasonCode(""); if reasonCode != nil { rc = *reasonCode }`
abbrev pub code_or_empty : Option String → String
code_or_empty none = ""
code_or_empty (some rc) = rc

module _ {N : Type 0} ⦃env : Env⦄ where
  -- A failure to record lineage is logged and passed over.
  unfoldable pub create_exception : ReconRun → String → String → String → String → Exec N (Unit {0})
  create_exception run entity_id entity_type rc recon_result_id = do
    now ← time_now
    exc_id ← generate_id
    with_context "create exception" (
        insert_exception (record {
          id = exc_id;
          recon_run_id = run.id;
          entity_type = entity_type;
          entity_id = entity_id;
          reason_code = rc;
          status = "open";
          assigned_to = "";
          created_at = now;
          updated_at = now;
        }))
    with_context "create exception event" (
        insert_exception_event exc_id "created" "system"
          (concat ("{\"reason_code\":\"" ∷ rc ∷ "\"}" ∷ [])))
    attempt
        (insert_lineage_edge "recon_result" recon_result_id "exception" exc_id "raised_exception")
    pure tt

  -- `if status == model.StatusBreak && reasonCode != nil { return e.createException(...) }`
  unfoldable pub raise_break :
      ReconRun → String → String → Bool → Option String → String → Exec N (Unit {0})
  unfolding create_exception
  raise_break run entity_id entity_type true (some rc) result_id =
      create_exception run entity_id entity_type rc result_id
  raise_break run entity_id entity_type true none result_id = pure tt
  raise_break run entity_id entity_type false reason_code result_id = pure tt

  unfoldable pub persist_result :
      ReconRun → String → String → String → Option String → String → Exec N (Unit {0})
  unfolding raise_break
  persist_result run entity_id entity_type status reason_code details = do
    result_id ← generate_id
    with_context "persist recon result" (
        insert_recon_result (record {
          id = result_id;
          run_id = run.id;
          entity_type = entity_type;
          entity_id = entity_id;
          status = status;
          reason_code = code_or_empty reason_code;
          details = details;
        }))
    attempt (insert_lineage_edge entity_type entity_id "recon_result" result_id "reconciled_as")
    raise_break run entity_id entity_type (status == status_break) reason_code result_id

  unfoldable pub persist_break : ReconRun → String → String → String → String → Exec N (Unit {0})
  persist_break run entity_id entity_type rc details =
      persist_result run entity_id entity_type status_break (some rc) details
