-- ===== src/Replay/Captured.antt =====
-- A case that internal/replay/service.go captures from a pair, and its replay, where the database serves
-- every call.
use trust_lot.Prelude.{String, Bool, true, false, none, some, ◌&&◌, map, ◌==◌, ◌≡◌, find, eqb, ltb}
use trust_lot.Platform.{Float64, Env, IsHealthy}
use trust_lot.Model.{Position, Transaction, ReconRun, ReconResult, Exception}
use trust_lot.Db.Tables.{position_json, transaction_json}
use trust_lot.Db.Exec.{Result, ok, World, pure, on_error, query, attempt, ◌>>=◌}
use trust_lot.Recon.Rules.{default_config}
use trust_lot.Recon.Verdicts.{position_verdict, transaction_verdict}
use trust_lot.Replay.Snapshots.{
  year_10000, answer, marshal_position, marshal_transaction, unmarshal_position,
  unmarshal_transaction, unmarshal_config, replay_position, replay_transaction,
}
use trust_lot.Replay.Assess.{ReplayRunResult, reason_text}
use trust_lot.Db.Recon.{of_row}
use trust_lot.Db.Records.{
  get_position, find_paired_position, get_transaction, find_paired_transaction,
}
use trust_lot.Replay.Cases.{is_exception_result, captured-run}
use trust_lot.Replay.Service.{
  run_case, create_case_from_exception, load_record_pair, load_position_pair, load_transaction_pair,
}

abbrev is_custodian_pair : {N : Type 0} → Position N → ReconRun → Position N → Bool
is_custodian_pair p run q =
    q.account_id == p.account_id
    && q.security_id == p.security_id
    && eqb q.as_of_date run.as_of_date
    && q.source == "custodian"

abbrev is_custodian_trade : {N : Type 0} → Transaction N → Transaction N → Bool
is_custodian_trade s t =
    t.account_id == s.account_id
    && t.security_id == s.security_id
    && t.txn_type == s.txn_type
    && eqb t.trade_date s.trade_date
    && t.source == "custodian"

module _ {N : Type 0} ⦃f : Float64 N⦄ where
  -- encoding/json refuses a number that is not finite, and a date after year 9999.
  abbrev IsMarshallablePosition : Position N → Type 0
  IsMarshallablePosition p =
      (f.finite p.quantity ≡ true)
      × (f.finite p.market_value ≡ true)
      × (ltb p.as_of_date year_10000 ≡ true)

  abbrev IsMarshallableTrade : Transaction N → Type 0
  IsMarshallableTrade t =
      (f.finite t.quantity ≡ true)
      × (f.finite t.price ≡ true)
      × (f.finite t.amount ≡ true)
      × (ltb t.trade_date year_10000 ≡ true)
      × (ltb t.settle_date year_10000 ≡ true)

module _ {N : Type 0} ⦃f : Float64 N⦄ ⦃env : Env⦄ (healthy : IsHealthy env) (w : World N)
    (id : String) (e : Exception) (r : ReconResult) (run : ReconRun)
    (e_found : find (λ x. x.id == id) w.tables.exceptions ≡ some e)
    (r_found : find (is_exception_result e) (map of_row w.tables.recon_results) ≡ some r)
    (run_found : find (λ x. x.id == e.recon_run_id) w.tables.recon_runs ≡ some run)
    (c_finite : (f.finite f.zero ≡ true) × (f.finite f.cent ≡ true))
    (fresh : find (λ x. x.id == env.fresh_id w.ids) w.tables.replay_cases ≡ none) where
  -- A case is captured from an exception on an internal position, and run. Where the database serves
  -- every call and holds the exception, its result, its run and the custodian's position, the numbers
  -- are finite, the dates before year 10000, the new id is new, and the result is what the rules say of
  -- the pair under the default tolerances, the replay is unchanged.
  pub capture-run :
      (p q : Position N)
      → e.entity_type ≡ "position"
      → find (λ x. x.id == e.entity_id) w.tables.positions ≡ some p
      → p.source ≡ "internal"
      → find (is_custodian_pair p run) w.tables.positions ≡ some q
      → IsMarshallablePosition p
      → IsMarshallablePosition q
      → (position_verdict default_config p q).status ≡ r.status
      → reason_text (position_verdict default_config p q).reason ≡ r.reason_code
      → let out : Result ReplayRunResult × World N =
          (create_case_from_exception id >>= λ c. run_case c.id) w in
        (report : ReplayRunResult) × (out.0 ≡ ok report) × (report.changed ≡ false)
  unfolding load_record_pair load_position_pair get_position find_paired_position marshal_position
      query attempt on_error pure ◌>>=◌ replay_position unmarshal_position unmarshal_config
  capture-run p q ty p_found internal q_found p_finite q_finite st rs =
      captured-run healthy w id e r run (position_json p, position_json q) e_found r_found run_found
        (simp (
          healthy, ty, p_found, internal, q_found, p_finite.0, p_finite.1, p_finite.2, q_finite.0,
          q_finite.1, q_finite.2,
        ))
        c_finite (answer (position_verdict default_config p q)) fresh (simp ty) st rs

  -- A case is captured from an exception on an internal transaction, and run. Where the database
  -- serves every call and holds the exception, its result, its run and the custodian's transaction of
  -- the same account, security, type and trade date, the numbers are finite, the dates before year
  -- 10000, the new id is new, and the result is what the rules say of the pair under the default
  -- tolerances, the replay is unchanged.
  pub capture-run_transaction :
      (s t : Transaction N)
      → e.entity_type ≡ "transaction"
      → find (λ x. x.id == e.entity_id) w.tables.transactions ≡ some s
      → s.source ≡ "internal"
      → find (is_custodian_trade s) w.tables.transactions ≡ some t
      → IsMarshallableTrade s
      → IsMarshallableTrade t
      → (transaction_verdict default_config s t).status ≡ r.status
      → reason_text (transaction_verdict default_config s t).reason ≡ r.reason_code
      → let out : Result ReplayRunResult × World N =
          (create_case_from_exception id >>= λ c. run_case c.id) w in
        (report : ReplayRunResult) × (out.0 ≡ ok report) × (report.changed ≡ false)
  unfolding load_record_pair load_transaction_pair get_transaction find_paired_transaction
      marshal_transaction query attempt on_error pure ◌>>=◌ replay_transaction unmarshal_transaction
      unmarshal_config
  capture-run_transaction s t ty s_found internal t_found s_finite t_finite st rs =
      captured-run healthy w id e r run (transaction_json s, transaction_json t) e_found r_found
        run_found
        (simp (
          healthy, ty, s_found, internal, t_found, s_finite.0, s_finite.1, s_finite.2, s_finite.3,
          s_finite.4, t_finite.0, t_finite.1, t_finite.2, t_finite.3, t_finite.4,
        ))
        c_finite (answer (transaction_verdict default_config s t)) fresh (simp ty) st rs
