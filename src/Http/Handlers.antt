-- ===== src/Http/Handlers.antt =====
-- internal/http/handlers.go: one handler for each endpoint. `param` is `chi.URLParam(r, ...)`. Lines of
-- the log are not modelled.
use trust_lot.Prelude.{ℕ, String, Option, none, some, [], length, if◌then◌else◌}
use trust_lot.Platform.{Float64, Env}
use trust_lot.Db.Exec.{Error, error_text}
use trust_lot.Db.Ping.{ping}
use trust_lot.Db.Recon.{list_recon_runs}
use trust_lot.Db.Exceptions.{list_exceptions, get_exception}
use trust_lot.Explain.Report.{Explanation}
use trust_lot.Explain.Service.{explain_exception}
use trust_lot.Trust.Service.{list_scores, compute_for_recon_result, compute_for_exception}
use trust_lot.Replay.Service.{list_cases, get_case, create_case_from_exception, run_case}
use trust_lot.Lineage.Graph.{MapOrder}
use trust_lot.Lineage.Service.{get_lineage_for_entity, get_lineage_for_exception}
use trust_lot.Http.Messages.{
  Request, Numerals, query_int, health, exception_list, one_exception, not_implemented, explanation,
  run_list, score_list, trust_score, graph, case_list, case_detail, one_case, run_result, error,
  Reply, written, panicked, Handler, write_json, answer, Server,
}

module _ {N : Type 0} where
  -- `writeJSON(w, status, map[string]string{"error": err.Error()})`
  abbrev pub error_reply : ℕ → Error → Reply N
  error_reply status e = written status (error (error_text e))

  abbrev pub internal_error : Error → Reply N
  internal_error e = written 500 (error "internal error")

  abbrev pub unavailable : String → Handler N
  unavailable service = write_json 503 (error service)

  abbrev pub explained : Option Explanation → Reply N
  explained (some x) = written 200 (explanation x)
  explained none = panicked

module _ {N : Type 0} ⦃env : Env⦄ (s : Server) where
  unfoldable pub handle_health : Handler N
  unfolding answer ping
  handle_health =
      if s.store
      then answer ping (λ e. written 200 (health "ok" "error"))
          (λ v. written 200 (health "ok" "connected"))
      else write_json 200 (health "ok" "disconnected")

  unfoldable pub handle_list_exceptions : ⦃n : Numerals⦄ → Request → Handler N
  unfolding answer query_int list_exceptions
  handle_list_exceptions r =
      if s.store
      then answer (list_exceptions (r.query "status") (query_int r "limit" 100)) internal_error
          (λ es. written 200 (exception_list es (length es)))
      else write_json 200 (exception_list [] 0)

  unfoldable pub handle_get_exception : String → Handler N
  unfolding answer get_exception
  handle_get_exception id =
      if s.store
      then answer (get_exception id) (error_reply 404) (λ e. written 200 (one_exception e))
      else write_json 200 (not_implemented id)

  unfoldable pub handle_list_recon_runs : ⦃n : Numerals⦄ → Request → Handler N
  unfolding answer query_int list_recon_runs
  handle_list_recon_runs r =
      if s.store
      then answer (list_recon_runs (query_int r "limit" 50)) internal_error
          (λ runs. written 200 (run_list runs (length runs)))
      else write_json 200 (run_list [] 0)

  unfoldable pub handle_list_trust_scores : ⦃n : Numerals⦄ → Request → Handler N
  unfolding answer query_int list_scores
  handle_list_trust_scores r =
      if s.truster
      then answer (list_scores (query_int r "limit" 100)) internal_error
          (λ scores. written 200 (score_list scores (length scores)))
      else write_json 200 (score_list [] 0)

  unfoldable pub handle_list_replay_cases : Handler N
  unfolding answer list_cases
  handle_list_replay_cases =
      if s.replayer
      then answer list_cases internal_error (λ cases. written 200 (case_list cases (length cases)))
      else write_json 200 (case_list [] 0)

module _ {N : Type 0} ⦃f : Float64 N⦄ ⦃env : Env⦄ (s : Server) where
  unfoldable pub handle_get_explanation : String → Handler N
  unfolding answer explain_exception
  handle_get_explanation id =
      if s.explainer
      then answer (explain_exception id) (error_reply 404) explained
      else unavailable "explanation service unavailable"

  unfoldable pub handle_trust_score_for_recon_result : String → Handler N
  unfolding answer compute_for_recon_result
  handle_trust_score_for_recon_result id =
      if s.truster
      then answer (compute_for_recon_result id) (error_reply 404) (λ x. written 200 (trust_score x))
      else unavailable "trust service unavailable"

  unfoldable pub handle_trust_score_for_exception : String → Handler N
  unfolding answer compute_for_exception
  handle_trust_score_for_exception id =
      if s.truster
      then answer (compute_for_exception id) (error_reply 404) (λ x. written 200 (trust_score x))
      else unavailable "trust service unavailable"

  unfoldable pub handle_lineage_for_entity : ⦃o : MapOrder N⦄ → String → String → Handler N
  unfolding answer get_lineage_for_entity
  handle_lineage_for_entity entity_type entity_id =
      if s.liner
      then answer (get_lineage_for_entity entity_type entity_id) (error_reply 404)
          (λ g. written 200 (graph g))
      else unavailable "lineage service unavailable"

  unfoldable pub handle_lineage_for_exception : ⦃o : MapOrder N⦄ → String → Handler N
  unfolding answer get_lineage_for_exception
  handle_lineage_for_exception id =
      if s.liner
      then answer (get_lineage_for_exception id) (error_reply 404) (λ g. written 200 (graph g))
      else unavailable "lineage service unavailable"

  unfoldable pub handle_get_replay_case : String → Handler N
  unfolding answer get_case
  handle_get_replay_case id =
      if s.replayer
      then answer (get_case id) (error_reply 404) (λ c. written 200 (case_detail c))
      else unavailable "replay service unavailable"

  unfoldable pub handle_create_replay_case_from_exception : String → Handler N
  unfolding answer create_case_from_exception
  handle_create_replay_case_from_exception exception_id =
      if s.replayer
      then answer (create_case_from_exception exception_id) (error_reply 400)
          (λ c. written 201 (one_case c))
      else unavailable "replay service unavailable"

  unfoldable pub handle_run_replay_case : String → Handler N
  unfolding answer run_case
  handle_run_replay_case id =
      if s.replayer
      then answer (run_case id) (error_reply 400) (λ x. written 200 (run_result x))
      else unavailable "replay service unavailable"
