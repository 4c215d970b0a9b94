-- ===== src/Model.antt =====
-- internal/model: the records of the program. `N` stands for Go's float64; a `*string` is an
-- `Option String`; the typed strings MatchStatus and ReasonCode are strings, as in the source.
pub mod ReasonCode
use trust_lot.Prelude.{ℕ, String, Bool, Option}
use trust_lot.Platform.{Time}

-- model.go: a source of portfolio feeds.
pub record Custodian : Type 0 where
  pub id : String
  pub name : String
  pub format : String
  pub endpoint : String
  pub active : Bool

pub record IngestionBatch : Type 0 where
  pub id : String
  pub custodian_id : String
  pub status : String
  pub file_ref : String
  pub record_count : ℕ
  pub started_at : Time
  pub completed_at : Option Time
  pub created_at : Time

pub record RawRecord : Type 0 where
  pub id : String
  pub batch_id : String
  pub seq_num : ℕ
  pub raw_data : Option String
  pub parsed_at : Option Time
  pub error : String

pub record Account : Type 0 where
  pub id : String
  pub external_id : String
  pub custodian_id : String
  pub name : String
  pub account_type : String
  pub created_at : Time

pub record Security : Type 0 where
  pub id : String
  pub symbol : String
  pub cusip : String
  pub isin : String
  pub sedol : String
  pub name : String
  pub security_type : String

pub record Position (N : Type 0) : Type 0 where
  pub id : String
  pub account_id : String
  pub security_id : String
  pub quantity : N
  pub market_value : N
  pub as_of_date : Time
  pub source : String
  pub batch_id : Option String

pub record Transaction (N : Type 0) : Type 0 where
  pub id : String
  pub account_id : String
  pub security_id : String
  pub txn_type : String
  pub quantity : N
  pub price : N
  pub amount : N
  pub trade_date : Time
  pub settle_date : Time
  pub source : String
  pub batch_id : Option String

pub record TaxLot (N : Type 0) : Type 0 where
  pub id : String
  pub account_id : String
  pub security_id : String
  pub open_date : Time
  pub quantity : N
  pub cost_basis : N
  pub relief_method : String
  pub source : String
  pub batch_id : Option String

pub record ReconRun : Type 0 where
  pub id : String
  pub entity_type : String
  pub as_of_date : Time
  pub status : String
  pub started_at : Time
  pub completed_at : Option Time

pub record ReconResult : Type 0 where
  pub id : String
  pub run_id : String
  pub entity_type : String
  pub entity_id : String
  pub status : String
  pub reason_code : String
  pub details : String

pub record Exception : Type 0 where
  pub id : String
  pub recon_run_id : String
  pub entity_type : String
  pub entity_id : String
  pub reason_code : String
  pub status : String
  pub assigned_to : String
  pub created_at : Time
  pub updated_at : Time

-- The scores of the domain model are float64; the rows of Db and what the service answers are other
-- types, which the store and the services use in place of these three.
pub record TrustScore (N : Type 0) : Type 0 where
  pub id : String
  pub entity_type : String
  pub entity_id : String
  pub total : N
  pub source_reliability : N
  pub mapping_confidence : N
  pub recon_status : N
  pub freshness : N
  pub completeness : N
  pub human_review_state : N
  pub anomaly_penalty : N
  pub computed_at : Time

pub record LineageEdge : Type 0 where
  pub id : String
  pub source_type : String
  pub source_id : String
  pub target_type : String
  pub target_id : String
  pub relation : String
  pub created_at : Time

pub record ReplayCase : Type 0 where
  pub id : String
  pub description : String
  pub fixture_ref : String
  pub status : String
  pub created_at : Time
