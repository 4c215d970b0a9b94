-- ===== src/Samples/System.antt =====
-- The theorem on the engine and the server together at a concrete input.
use trust_lot.Prelude.{true, [], ◌∷◌, ◌≡◌, refl, arith}
use trust_lot.Prelude.Int.{ℤ}
use trust_lot.Db.Exec.{World}
use trust_lot.Recon.Engine.{run}
use trust_lot.Recon.Traced.{IsTraced}
use trust_lot.Http.Messages.{Request}
use trust_lot.Http.Routes.{serve}
use trust_lot.Http.Replies.{IsReply}
use trust_lot.System.Steps.{Reaches, start, next, ran, answered}
use trust_lot.Replay.Service.{run_case}
use trust_lot.System.{reached-IsReply}
use trust_lot.Trust.Persisted.{HasOneEach}
use trust_lot.System.Scores.{reached-HasOneEach}
use trust_lot.System.Replays.{reached-run_case}
use trust_lot.Samples.Numbers.{cents}
use trust_lot.Samples.Data.{quiet, database, tolerances}
use trust_lot.Samples.Replay.{lone_case}
use trust_lot.Samples.Lineage.{in_order}
use trust_lot.Samples.Http.{two, by_pattern, by_pattern-IsMux, request, explanation_request}

abbrev new_database : World ℤ
new_database = record database { tables = record database.tables { exceptions = [] } }

abbrev after_run : World ℤ
after_run = (run tolerances "run-1" new_database).1

abbrev after_request : World ℤ
after_request = (serve ⦃m = by_pattern⦄ true explanation_request after_run).1

one_of_each : Reaches by_pattern tolerances new_database after_request
one_of_each = next (next start (ran "run-1" refl)) (answered explanation_request refl)

reached-IsReply_example :
    IsTraced after_request.tables
    × IsReply (serve ⦃m = by_pattern⦄ true explanation_request after_request).0
reached-IsReply_example =
    reached-IsReply by_pattern by_pattern-IsMux tolerances new_database after_request refl
      one_of_each explanation_request

-- A run of the engine and a replay over HTTP, which sets the status of the case.
abbrev cases : World ℤ
cases = record database {
  tables = record database.tables { replay_cases = record lone_case { id = "exc-1" } ∷ [] };
}

abbrev case_run : World ℤ
case_run = (run tolerances "run-1" cases).1

abbrev case_replayed : World ℤ
case_replayed =
    (serve ⦃m = by_pattern⦄ true (request "POST" "/api/v1/replay-cases/{id}/run") case_run).1

reached-run_case_example : (run_case "exc-1" case_replayed).0 ≡ (run_case "exc-1" cases).0
reached-run_case_example =
    reached-run_case by_pattern by_pattern-IsMux tolerances cases case_replayed "exc-1"
      (record lone_case { id = "exc-1" })
      (next (next start (ran "run-1" refl))
        (answered (request "POST" "/api/v1/replay-cases/{id}/run") refl))
      refl refl refl

new_scores : HasOneEach []
new_scores entity_type entity_id = omega arith

abbrev score_request : Request
score_request = request "GET" "/api/v1/trust-scores/exception/{id}"

abbrev after_score : World ℤ
after_score = (serve ⦃m = by_pattern⦄ true score_request database).1

reached-HasOneEach_example : HasOneEach after_score.tables.trust_scores
reached-HasOneEach_example =
    reached-HasOneEach by_pattern by_pattern-IsMux tolerances database after_score
      (next start (answered score_request refl)) new_scores
