-- ===== src/Db/Tables.antt =====
-- The rows of the database that the program reads and writes (db/migrations, internal/db/store.go).
-- A table is the list of its rows in the order of their insertion.
use trust_lot.Prelude.{ℕ, String, Option, List}
use trust_lot.Platform.{Time}
use trust_lot.Model.{IngestionBatch, RawRecord, Position, Transaction, ReconRun, Exception}

-- A row of recon_results: the reason code is NULL (`none`) where there is none.
pub record ReconResultRow : Type 0 where
  pub id : String
  pub run_id : String
  pub entity_type : String
  pub entity_id : String
  pub status : String
  pub reason_code : Option String
  pub details : String

pub record ExceptionEvent : Type 0 where
  pub exception_id : String
  pub event_type : String
  pub actor : String
  pub detail : String

pub record EdgeRow : Type 0 where
  pub source_type : String
  pub source_id : String
  pub target_type : String
  pub target_id : String
  pub relation : String

-- A trust score: the numbers are in hundredths (see Trust.Scorer).
pub record TrustScoreRow : Type 0 where
  pub id : String
  pub entity_type : String
  pub entity_id : String
  pub total : ℕ
  pub source_reliability : ℕ
  pub mapping_confidence : ℕ
  pub recon_status : ℕ
  pub freshness : ℕ
  pub completeness : ℕ
  pub human_review_state : ℕ
  pub anomaly_penalty : ℕ
  pub rationale_summary : String
  pub computed_at : Time

-- recon.ReconConfig, the tolerances of the rules.
pub record ReconConfig (N : Type 0) : Type 0 where
  pub price_tolerance : N
  pub quantity_tolerance : N

-- The JSON text of a snapshot, by what it is the text of. `malformed` is a text that is not JSON, with
-- what encoding/json says of it. Objects of other shapes are not modelled: no code writes them.
pub data Json (N : Type 0) : Type 0 where
  null : Json N
  position_json : Position N → Json N
  transaction_json : Transaction N → Json N
  config_json : ReconConfig N → Json N
  malformed : String → Json N

-- A nil byte slice, a NULL column, is `none`.
pub record ReplayCaseRow (N : Type 0) : Type 0 where
  pub id : String
  pub description : String
  pub status : String
  pub source_exception_id : Option String
  pub entity_type : String
  pub expected_match_status : String
  pub expected_reason_code : String
  pub internal_snapshot : Option (Json N)
  pub custodian_snapshot : Option (Json N)
  pub config_snapshot : Option (Json N)
  pub created_at : Time

pub record Tables (N : Type 0) : Type 0 where
  pub positions : List (Position N)
  pub transactions : List (Transaction N)
  pub recon_runs : List ReconRun
  pub recon_results : List ReconResultRow
  pub exceptions : List Exception
  pub exception_events : List ExceptionEvent
  pub trust_scores : List TrustScoreRow
  pub lineage_edges : List EdgeRow
  pub replay_cases : List (ReplayCaseRow N)
  pub raw_records : List RawRecord
  pub ingestion_batches : List IngestionBatch
