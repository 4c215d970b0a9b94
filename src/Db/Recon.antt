-- ===== src/Db/Recon.antt =====
-- internal/db/store.go: the queries on recon_runs and recon_results.
use mathlib.Core.List.{reverse}
use trust_lot.Prelude.{
  ℕ, String, Option, none, some, ◌&&◌, List, [], ◌∷◌, ◌++◌, map, ◌==◌, keep, find, eq_iff, arith,
  ◌≡◌, update, length, ltb, sort_by, concat, if◌then◌else◌,
}
use trust_lot.Platform.{Time, Env}
use trust_lot.Model.{ReconRun, ReconResult}
use trust_lot.Model.ReasonCode.{status_match, status_break}
use trust_lot.Db.Tables.{ReconResultRow}
use trust_lot.Db.Exec.{
  stored_option, Error, no_rows, driver, message, wrap, Exec, ok, query, execute, row, with_context,
  on_error, limited,
}

-- ReconRunRow: a run with the number of its matches and breaks.
pub record ReconRunRow : Type 0 where
  pub run : ReconRun
  pub match_count : ℕ
  pub break_count : ℕ

-- `if err == pgx.ErrNoRows { "<what> not found: <id>" }`, else wrapped.
abbrev pub not_found : String → String → String → Error → Error
not_found what id context no_rows = message (concat (what ∷ " not found: " ∷ id ∷ []))
not_found what id context (driver s) = wrap context (driver s)
not_found what id context (message s) = wrap context (message s)
not_found what id context (wrap s e) = wrap context (wrap s e)

-- The NULL that stands for an absent reason code, written and read back.
abbrev pub nullable : String → Option String
nullable s = if s == "" then none else some s

abbrev or_empty : Option String → String
or_empty none = ""
or_empty (some s) = s

unfoldable pub to_row : ReconResult → ReconResultRow
to_row r = record {
  id = r.id;
  run_id = r.run_id;
  entity_type = r.entity_type;
  entity_id = r.entity_id;
  status = r.status;
  reason_code = nullable r.reason_code;
  details = r.details;
}

unfoldable pub of_row : ReconResultRow → ReconResult
of_row r = record {
  id = r.id;
  run_id = r.run_id;
  entity_type = r.entity_type;
  entity_id = r.entity_id;
  status = r.status;
  reason_code = or_empty r.reason_code;
  details = r.details;
}

or_empty-nullable : (s : String) → or_empty (nullable s) ≡ s
or_empty-nullable s = ground (arith, eq_iff s "")

-- A result is read back as it was written: NULL stands for the empty reason code.
pub of_row-to_row : (r : ReconResult) → of_row (to_row r) ≡ r
unfolding of_row to_row
of_row-to_row r = λ i. record r { reason_code = or_empty-nullable r.reason_code i }

-- `COUNT(*) FILTER (WHERE rr.status = s)` over the results of a run.
unfoldable pub count_results : String → String → List ReconResultRow → ℕ
count_results run_id status rows =
    length (keep (λ r. r.run_id == run_id && r.status == status) rows)

module _ {N : Type 0} ⦃env : Env⦄ where
  unfoldable pub get_recon_run : String → Exec N ReconRun
  get_recon_run id =
      with_context "get recon run" (query λ t. row (find (λ r. r.id == id) t.recon_runs))

  unfoldable pub update_recon_run_status : String → String → Option Time → Exec N (Unit {0})
  update_recon_run_status id status completed_at = with_context "update recon run status" (
      execute λ t. record t {
        recon_runs =
            update (λ r. r.id == id)
              (λ r. record r { status = status; completed_at = stored_option completed_at })
              t.recon_runs;
      })

  unfoldable pub insert_recon_result : ReconResult → Exec N (Unit {0})
  insert_recon_result r =
      with_context "insert recon result"
        (execute λ t. record t { recon_results = t.recon_results ++ to_row r ∷ [] })

  unfoldable pub get_recon_result : String → Exec N ReconResult
  get_recon_result id =
      on_error (not_found "recon result" id "get recon result")
        (query λ t. row (find (λ r. r.id == id) (map of_row t.recon_results)))

  unfoldable pub get_recon_result_for_exception : String → String → String → Exec N ReconResult
  get_recon_result_for_exception run_id entity_type entity_id =
      with_context "get recon result for exception" (
        query λ t. row (
          find (λ r. r.run_id == run_id && r.entity_type == entity_type && r.entity_id == entity_id)
            (map of_row t.recon_results)))

  -- `ORDER BY created_at DESC`: the newest row first.
  unfoldable pub list_recon_results_for_entity : String → String → Exec N (List ReconResult)
  list_recon_results_for_entity entity_type entity_id =
      with_context "list recon results for entity" (
        query λ t. ok (
          reverse (
            keep (λ r. r.entity_type == entity_type && r.entity_id == entity_id)
              (map of_row t.recon_results))))

  unfoldable pub list_recon_runs : ℕ → Exec N (List ReconRunRow)
  unfolding count_results sort_by
  list_recon_runs limit = with_context "list recon runs" (
      query λ t. ok (
        limited limit (
          map
            (λ r. record {
              run = r;
              match_count = count_results r.id status_match t.recon_results;
              break_count = count_results r.id status_break t.recon_results;
            })
            (sort_by (λ r s. ltb s.started_at r.started_at) t.recon_runs))))
