-- ===== src/Replay/Service.antt =====
-- internal/replay/service.go: the replay service over the database.
use trust_lot.Prelude.{String, Option, none, some, List, ◌∷◌, [], map, ◌==◌, concat, if◌then◌else◌}
use trust_lot.Platform.{Float64, Env}
use trust_lot.Model.{Position, Transaction, ReconRun, Exception}
use trust_lot.Db.Tables.{
  Json, ReplayCaseRow, null, position_json, transaction_json, config_json, malformed,
}
use trust_lot.Db.Exec.{
  message, Result, ok, err, Exec, pure, raise, with_context, attempt, generate_id, time_now, ◌>>=◌,
  ◌>>◌,
}
use trust_lot.Db.Records.{
  get_position, get_transaction, find_paired_position, find_paired_transaction,
}
use trust_lot.Db.Recon.{get_recon_run, get_recon_result_for_exception}
use trust_lot.Db.Exceptions.{get_exception}
use trust_lot.Db.Replays.{
  insert_replay_case, get_replay_case, list_replay_cases, update_replay_case_status,
}
use trust_lot.Recon.Rules.{default_config}
use trust_lot.Replay.Snapshots.{
  marshal_position, marshal_transaction, marshal_config, replay_from_snapshots,
}
use trust_lot.Replay.Assess.{ReplayRunResult, assess, new_status}

pub record ReplayCase : Type 0 where
  pub id : String
  pub description : String
  pub status : String
  pub source_exception_id : Option String
  pub entity_type : String
  pub expected_match_status : String
  pub expected_reason_code : String
  pub created_at : String

-- A snapshot for display: `none` is Go's nil.
pub record ReplayCaseDetail (N : Type 0) : Type 0 where
  pub replay_case : ReplayCase
  pub internal_snapshot : Option (Json N)
  pub custodian_snapshot : Option (Json N)
  pub config_snapshot : Option (Json N)

-- The two records of a pair in the order internal, custodian: `x` is the record of `source`.
abbrev pub by_side : {A : Type 0} → String → A → Option A → Option A × Option A
by_side source x paired = if source == "internal" then (some x, paired) else (paired, some x)

abbrev pub opposite : String → String
opposite source = if source == "custodian" then "internal" else "custodian"

abbrev pub or_nil : {A : Type 0} → Result A → Option A
or_nil (ok a) = some a
or_nil (err e) = none

module _ {N : Type 0} where
  -- `var v any; if json.Unmarshal(...) == nil { ... = v }`
  unfoldable pub display : Option (Json N) → Option (Json N)
  display none = none
  display (some null) = none
  display (some (position_json p)) = some (position_json p)
  display (some (transaction_json t)) = some (transaction_json t)
  display (some (config_json c)) = some (config_json c)
  display (some (malformed s)) = none

  -- A value, or the error that it is.
  abbrev pub lift : {A : Type 0} → Result A → Exec N A
  lift (ok a) = pure a
  lift (err e) = raise e

module _ {N : Type 0} ⦃env : Env⦄ where
  unfoldable pub row_to_case : ReplayCaseRow N → ReplayCase
  row_to_case row = record {
    id = row.id;
    description = row.description;
    status = row.status;
    source_exception_id = row.source_exception_id;
    entity_type = row.entity_type;
    expected_match_status = row.expected_match_status;
    expected_reason_code = row.expected_reason_code;
    created_at = env.format_time row.created_at;
  }

  -- Any error of the search for the pair counts as an unmatched record.
  unfoldable pub load_position_pair :
      String → ReconRun → Exec N (Option (Position N) × Option (Position N))
  load_position_pair entity_id run = do
    p ← with_context (concat ("load position " ∷ entity_id ∷ [])) (get_position entity_id)
    paired ←
        attempt (find_paired_position p.account_id p.security_id run.as_of_date (opposite p.source))
    pure (by_side p.source p (or_nil paired))

  unfoldable pub load_transaction_pair :
      String → ReconRun → Exec N (Option (Transaction N) × Option (Transaction N))
  load_transaction_pair entity_id run = do
    t ← with_context (concat ("load transaction " ∷ entity_id ∷ [])) (get_transaction entity_id)
    paired ← attempt (
        find_paired_transaction t.account_id t.security_id t.txn_type t.trade_date
          (opposite t.source))
    pure (by_side t.source t (or_nil paired))

  unfoldable pub list_cases : Exec N (List ReplayCase)
  unfolding row_to_case
  list_cases = do
    rows ← with_context "list replay cases" list_replay_cases
    pure (map row_to_case rows)

  unfoldable pub get_case : String → Exec N (ReplayCaseDetail N)
  unfolding row_to_case display
  get_case id = do
    row ← with_context "load replay case" (get_replay_case id)
    pure (record {
      replay_case = row_to_case row;
      internal_snapshot = display row.internal_snapshot;
      custodian_snapshot = display row.custodian_snapshot;
      config_snapshot = display row.config_snapshot;
    })

module _ {N : Type 0} ⦃f : Float64 N⦄ ⦃env : Env⦄ where
  -- The marshalled pair of an exception: loadRecordPair and the first two calls of json.Marshal.
  abbrev both_marshalled :
      {A : Type 0} → (Option A → Result (Json N)) → Option A × Option A → Exec N (Json N × Json N)
  both_marshalled marshal pair = do
    internal ← with_context "marshal internal snapshot" (lift (marshal pair.0))
    custodian ← with_context "marshal custodian snapshot" (lift (marshal pair.1))
    pure (internal, custodian)

  unfoldable pub load_record_pair : Exception → ReconRun → Exec N (Json N × Json N)
  unfolding load_position_pair load_transaction_pair
  load_record_pair e run =
      if e.entity_type == "position"
      then with_context "load record pair" (load_position_pair e.entity_id run)
        >>= both_marshalled marshal_position
      else if e.entity_type == "transaction"
      then with_context "load record pair" (load_transaction_pair e.entity_id run)
        >>= both_marshalled marshal_transaction
      else with_context "load record pair"
          (raise (message (concat ("unsupported entity type: " ∷ e.entity_type ∷ []))))

  unfoldable pub create_case_from_exception : String → Exec N ReplayCase
  unfolding load_record_pair row_to_case
  create_case_from_exception exception_id = do
    e ← with_context "load exception" (get_exception exception_id)
    r ←
        with_context "load recon result"
          (get_recon_result_for_exception e.recon_run_id e.entity_type e.entity_id)
    run ← with_context "load recon run" (get_recon_run e.recon_run_id)
    snapshots ← load_record_pair e run
    config ← with_context "marshal config snapshot" (lift (marshal_config default_config))
    id ← generate_id
    now ← time_now
    let row : ReplayCaseRow N = record {
      id = id;
      description =
          concat (
            "Captured from exception " ∷ e.id ∷ ": " ∷ e.reason_code ∷ " on " ∷ e.entity_type ∷ []);
      status = "pending";
      source_exception_id = some e.id;
      entity_type = e.entity_type;
      expected_match_status = r.status;
      expected_reason_code = r.reason_code;
      internal_snapshot = some snapshots.0;
      custodian_snapshot = some snapshots.1;
      config_snapshot = some config;
      created_at = now;
    }
    with_context "persist replay case" (insert_replay_case row)
    pure (row_to_case row)

  -- An error of the update of the case's status is logged and dropped.
  unfoldable pub run_case : String → Exec N ReplayRunResult
  unfolding assess new_status
  run_case id = do
    row ← with_context "load replay case" (get_replay_case id)
    actual ← with_context "replay execution" (lift (replay_from_snapshots row))
    let result = assess id row actual
    attempt (update_replay_case_status id (new_status result))
    pure result
