-- ===== src/Recon/Recorded.antt =====
-- What a reconciliation leaves in recon_results and exceptions where the database serves every call:
-- the outcomes, but for the ids and times that are drawn on the way.
use trust_lot.Prelude.{
  String, Bool, true, false, Option, none, some, List, [], ◌∷◌, ◌++◌, map, ◌==◌, ◌≡◌, refl, sym,
  ◌∙◌, ap, if◌then◌else◌,
}
use mathlib.Core.List.{append_assoc, append-nil, map-append}
use trust_lot.Platform.{Env, IsHealthy}
use trust_lot.Model.{ReconRun, Exception}
use trust_lot.Model.ReasonCode.{status_break}
use trust_lot.Db.Tables.{ReconResultRow}
use trust_lot.Db.Recon.{nullable, to_row}
use trust_lot.Db.Exec.{ok, World, pure, ◌>>=◌}
use trust_lot.Recon.Persist.{code_or_empty}
use trust_lot.Recon.Outcomes.{Outcome, is_break, persist_all}
use trust_lot.Recon.Effects.{after_break, after_insert, after_result, persist_result-healthy}

-- A row of recon_results without its id, and one of exceptions without its id and times.
pub record Reported : Type 0 where
  pub run_id : String
  pub entity_type : String
  pub entity_id : String
  pub status : String
  pub reason_code : Option String
  pub details : String

pub record Raised : Type 0 where
  pub run_id : String
  pub entity_type : String
  pub entity_id : String
  pub reason_code : String
  pub status : String

abbrev pub reported : ReconResultRow → Reported
reported r = record {
  run_id = r.run_id;
  entity_type = r.entity_type;
  entity_id = r.entity_id;
  status = r.status;
  reason_code = r.reason_code;
  details = r.details;
}

abbrev pub raised : Exception → Raised
raised e = record {
  run_id = e.recon_run_id;
  entity_type = e.entity_type;
  entity_id = e.entity_id;
  reason_code = e.reason_code;
  status = e.status;
}

-- What an outcome is to leave: a result, and an exception if it is a break with a reason.
abbrev pub null_if_empty : Option String → Option String
null_if_empty none = none
null_if_empty (some rc) = if rc == "" then none else some rc

abbrev pub report_of : ReconRun → String → Outcome → Reported
report_of run entity_type o = record {
  run_id = run.id;
  entity_type = entity_type;
  entity_id = o.entity_id;
  status = o.status;
  reason_code = null_if_empty o.reason;
  details = o.details;
}

abbrev pub raise_for : ReconRun → String → Outcome → Bool → Option String → List Raised
raise_for run entity_type o true (some rc) =
    record {
      run_id = run.id;
      entity_type = entity_type;
      entity_id = o.entity_id;
      reason_code = rc;
      status = "open";
    }
    ∷ []
raise_for run entity_type o true none = []
raise_for run entity_type o false reason = []

abbrev pub raises_of : ReconRun → String → List Outcome → List Raised
raises_of run entity_type [] = []
raises_of run entity_type (o ∷ os) =
    raise_for run entity_type o (is_break o) o.reason ++ raises_of run entity_type os

pub nullable-code_or_empty :
    (reason : Option String) → nullable (code_or_empty reason) ≡ null_if_empty reason
nullable-code_or_empty none = refl
nullable-code_or_empty (some rc) = refl

module _ {N : Type 0} ⦃env : Env⦄ (run : ReconRun) (ty : String) where
  unfoldable pub recorded : List Outcome → World N → World N
  recorded [] w = w
  recorded (o ∷ os) w = recorded os (after_result run o.entity_id ty o.status o.reason o.details w)

  pub persist_all-healthy :
      IsHealthy env
      → (os : List Outcome) (w : World N) → persist_all run ty os w ≡ (ok tt, recorded os w)
  unfolding persist_all recorded pure ◌>>=◌
  persist_all-healthy h [] w = refl
  persist_all-healthy h (o ∷ os) w =
      rw (persist_result-healthy h, ◌>>=◌) (persist_all-healthy h os _)

  -- The exception of a break leaves the results alone, and the other way round.
  results-after_break :
      (entity_id : String) (b : Bool) (reason : Option String) (result_id : String) (w : World N)
      → (after_break run entity_id ty b reason result_id w).tables.recon_results
        ≡ w.tables.recon_results
  unfolding after_break
  results-after_break entity_id true (some rc) result_id w = refl
  results-after_break entity_id true none result_id w = refl
  results-after_break entity_id false reason result_id w = refl

  exceptions-after_break :
      (o : Outcome) (b : Bool) (reason : Option String) (result_id : String) (w : World N)
      → map raised (after_break run o.entity_id ty b reason result_id w).tables.exceptions
        ≡ map raised w.tables.exceptions ++ raise_for run ty o b reason
  unfolding after_break
  exceptions-after_break o true (some rc) result_id w = map-append _ w.tables.exceptions _
  exceptions-after_break o true none result_id w = sym (append-nil _)
  exceptions-after_break o false reason result_id w = sym (append-nil _)

  results-after :
      (o : Outcome) (w : World N)
      → map reported
          (after_result run o.entity_id ty o.status o.reason o.details w).tables.recon_results
        ≡ map reported w.tables.recon_results ++ report_of run ty o ∷ []
  unfolding after_result after_insert to_row
  results-after o w =
      ap (map reported) (results-after_break o.entity_id (o.status == status_break) o.reason _ _)
      ∙ map-append reported w.tables.recon_results _
      ∙ rw (nullable-code_or_empty o.reason)

  exceptions-after :
      (o : Outcome) (w : World N)
      → map raised (after_result run o.entity_id ty o.status o.reason o.details w).tables.exceptions
        ≡ map raised w.tables.exceptions ++ raise_for run ty o (is_break o) o.reason
  unfolding after_result after_insert
  exceptions-after o w = exceptions-after_break o (o.status == status_break) o.reason _ _

  pub results-recorded :
      (os : List Outcome) (w : World N)
      → map reported (recorded os w).tables.recon_results
        ≡ map reported w.tables.recon_results ++ map (report_of run ty) os
  unfolding recorded
  results-recorded [] w = sym (append-nil _)
  results-recorded (o ∷ os) w =
      results-recorded os _
      ∙ ap (λ rows. rows ++ map (report_of run ty) os) (results-after o w)
      ∙ append_assoc (map reported w.tables.recon_results) (report_of run ty o ∷ [])
          (map (report_of run ty) os)

  pub exceptions-recorded :
      (os : List Outcome) (w : World N)
      → map raised (recorded os w).tables.exceptions
        ≡ map raised w.tables.exceptions ++ raises_of run ty os
  unfolding recorded
  exceptions-recorded [] w = sym (append-nil _)
  exceptions-recorded (o ∷ os) w =
      exceptions-recorded os _
      ∙ ap (λ rows. rows ++ raises_of run ty os) (exceptions-after o w)
      ∙ append_assoc (map raised w.tables.exceptions) (raise_for run ty o (is_break o) o.reason)
          (raises_of run ty os)

  runs-after_break :
      (entity_id : String) (b : Bool) (reason : Option String) (result_id : String) (w : World N)
      → (after_break run entity_id ty b reason result_id w).tables.recon_runs ≡ w.tables.recon_runs
  unfolding after_break
  runs-after_break entity_id true (some rc) result_id w = refl
  runs-after_break entity_id true none result_id w = refl
  runs-after_break entity_id false reason result_id w = refl

  pub runs-recorded :
      (os : List Outcome) (w : World N) → (recorded os w).tables.recon_runs ≡ w.tables.recon_runs
  unfolding recorded after_result after_insert
  runs-recorded [] w = refl
  runs-recorded (o ∷ os) w =
      runs-recorded os _ ∙ runs-after_break o.entity_id (o.status == status_break) o.reason _ _
