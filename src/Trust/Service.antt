-- ===== src/Trust/Service.antt =====
-- internal/trust/service.go: scores are computed from what the database holds and written to
-- trust_scores.
use trust_lot.Prelude.{ℕ, String, Bool, true, List, map, ◌==◌, not, if◌then◌else◌}
use trust_lot.Platform.{Time, Float64, Env}
use trust_lot.Model.{Position, Transaction, Exception}
use trust_lot.Db.Tables.{TrustScoreRow}
use trust_lot.Db.Exec.{Result, ok, err, Exec, pure, with_context, attempt, time_now, ◌>>=◌}
use trust_lot.Db.Records.{get_position, get_transaction}
use trust_lot.Db.Recon.{get_recon_run, get_recon_result, get_recon_result_for_exception}
use trust_lot.Db.Exceptions.{get_exception, find_exception_for_entity}
use trust_lot.Db.Scores.{upsert_trust_score, list_trust_scores}
use trust_lot.Trust.Scorer.{ScoreComponents, ReconInput, compute_components, compute_total}
use trust_lot.Trust.Rationale.{build_rationale}

pub record TrustScoreResult : Type 0 where
  pub id : String
  pub entity_type : String
  pub entity_id : String
  pub score : ℕ
  pub components : ScoreComponents
  pub rationale_summary : String
  pub computed_at : Time

unfoldable pub row_to_result : TrustScoreRow → TrustScoreResult
row_to_result r = record {
  id = r.id;
  entity_type = r.entity_type;
  entity_id = r.entity_id;
  score = r.total;
  components = record {
    source_reliability = r.source_reliability;
    reconciliation = r.recon_status;
    freshness = r.freshness;
    completeness = r.completeness;
    human_review = r.human_review_state;
    anomaly_penalty = r.anomaly_penalty;
  };
  rationale_summary = r.rationale_summary;
  computed_at = r.computed_at;
}

-- The row that computeAndPersist writes, and the result that it returns.
unfoldable pub score_row : String → String → ReconInput → Time → TrustScoreRow
score_row entity_type entity_id input now =
    let c = compute_components input in
    let total = compute_total c in
    record {
      id = "";
      entity_type = entity_type;
      entity_id = entity_id;
      total = total;
      source_reliability = c.source_reliability;
      mapping_confidence = 0;
      recon_status = c.reconciliation;
      freshness = c.freshness;
      completeness = c.completeness;
      human_review_state = c.human_review;
      anomaly_penalty = c.anomaly_penalty;
      rationale_summary = build_rationale total c input.match_status input.exception_status;
      computed_at = now;
    }

unfoldable pub score_result : String → String → String → ReconInput → Time → TrustScoreResult
score_result id entity_type entity_id input now =
    let c = compute_components input in
    let total = compute_total c in
    record {
      id = id;
      entity_type = entity_type;
      entity_id = entity_id;
      score = total;
      components = c;
      rationale_summary = build_rationale total c input.match_status input.exception_status;
      computed_at = now;
    }

-- The source, the date and the completeness signals that entitySignals returns.
pub record EntitySignals : Type 0 where
  pub source : String
  pub as_of_date : Time
  pub has_account_id : Bool
  pub has_security_id : Bool
  pub has_quantity : Bool
  pub has_amount : Bool

abbrev pub unknown_entity : Time → EntitySignals
unknown_entity fallback_date = record {
  source = "custodian";
  as_of_date = fallback_date;
  has_account_id = true;
  has_security_id = true;
  has_quantity = true;
  has_amount = true;
}

abbrev pub present : String → Bool
present s = not (s == "")

-- The input of the scores, from a result's status and reason and what is known of the entity.
abbrev pub input_of : String → String → EntitySignals → Time → String → ReconInput
input_of status reason signals now exception_status = record {
  match_status = status;
  reason_code = reason;
  source = signals.source;
  as_of_date = signals.as_of_date;
  now = now;
  exception_status = exception_status;
  has_account_id = signals.has_account_id;
  has_security_id = signals.has_security_id;
  has_quantity = signals.has_quantity;
  has_amount = signals.has_amount;
}

-- Any error counts as no exception.
abbrev status_found : Result Exception → String
status_found (ok e) = e.status
status_found (err e) = ""

module _ {N : Type 0} ⦃env : Env⦄ where
  unfoldable pub compute_and_persist : String → String → ReconInput → Exec N TrustScoreResult
  unfolding score_row score_result
  compute_and_persist entity_type entity_id input = do
    now ← time_now
    id ←
        with_context "trust: persist score"
          (upsert_trust_score (score_row entity_type entity_id input now))
    pure (score_result id entity_type entity_id input now)

  unfoldable pub lookup_exception_status : String → String → String → Exec N String
  lookup_exception_status run_id entity_type entity_id = do
    found ← attempt (find_exception_for_entity run_id entity_type entity_id)
    pure (status_found found)

  unfoldable pub list_scores : ℕ → Exec N (List TrustScoreResult)
  unfolding row_to_result
  list_scores limit = do rows ← list_trust_scores limit; pure (map row_to_result rows)

module _ {N : Type 0} ⦃f : Float64 N⦄ ⦃env : Env⦄ where
  -- Any error counts as an entity that is not there.
  abbrev pub position_signals : Time → Result (Position N) → EntitySignals
  position_signals fallback_date (ok p) = record {
    source = p.source;
    as_of_date = p.as_of_date;
    has_account_id = present p.account_id;
    has_security_id = present p.security_id;
    has_quantity = true;
    has_amount = not (f.eq p.market_value f.zero);
  }
  position_signals fallback_date (err e) = unknown_entity fallback_date

  abbrev pub transaction_signals : Time → Result (Transaction N) → EntitySignals
  transaction_signals fallback_date (ok t) = record {
    source = t.source;
    as_of_date = t.trade_date;
    has_account_id = present t.account_id;
    has_security_id = present t.security_id;
    has_quantity = true;
    has_amount = not (f.eq t.amount f.zero);
  }
  transaction_signals fallback_date (err e) = unknown_entity fallback_date

  unfoldable pub entity_signals : String → String → Time → Exec N EntitySignals
  entity_signals entity_type entity_id fallback_date =
      if entity_type == "position"
      then attempt (get_position entity_id) >>= (λ p. pure (position_signals fallback_date p))
      else if entity_type == "transaction"
      then attempt (get_transaction entity_id) >>= (λ t. pure (transaction_signals fallback_date t))
      else pure (unknown_entity fallback_date)

  unfoldable pub compute_for_recon_result : String → Exec N TrustScoreResult
  unfolding lookup_exception_status entity_signals compute_and_persist
  compute_for_recon_result id = do
    r ← with_context "trust: load recon result" (get_recon_result id)
    run ← with_context "trust: load recon run" (get_recon_run r.run_id)
    exception_status ← lookup_exception_status r.run_id r.entity_type r.entity_id
    signals ← entity_signals r.entity_type r.entity_id run.as_of_date
    now ← time_now
    compute_and_persist r.entity_type r.entity_id
        (input_of r.status r.reason_code signals now exception_status)

  unfoldable pub compute_for_exception : String → Exec N TrustScoreResult
  unfolding entity_signals compute_and_persist
  compute_for_exception id = do
    e ← with_context "trust: load exception" (get_exception id)
    run ← with_context "trust: load recon run" (get_recon_run e.recon_run_id)
    r ←
        with_context "trust: load recon result for exception"
          (get_recon_result_for_exception e.recon_run_id e.entity_type e.entity_id)
    signals ← entity_signals e.entity_type e.entity_id run.as_of_date
    now ← time_now
    compute_and_persist e.entity_type e.entity_id
        (input_of r.status r.reason_code signals now e.status)
