-- ===== src/Samples/Data.antt =====
-- A small database: a run over positions, one pair that differs, a record of either side alone, and
-- the result and the exception that an earlier run left.
use trust_lot.Prelude.{String, none, some, [], ◌∷◌, eqb, refl, if◌then◌else◌}
use trust_lot.Prelude.Int.{ℤ, pos, negsuc}
use trust_lot.Platform.{Env, IsHealthy}
use trust_lot.Model.{Position, Transaction, ReconRun, Exception}
use trust_lot.Model.ReasonCode.{status_break, pos_quantity_mismatch}
use trust_lot.Db.Tables.{ReconResultRow, ReconConfig}
use trust_lot.Db.Exec.{World}

instance abbrev pub quiet : Env
quiet = record {
  fault = λ n. none;
  fresh_id = λ n. if eqb n 0 then "new-0" else if eqb n 1 then "new-1" else "new";
  row_id = λ n. "row";
  now = λ n. 90_000_000_000_000;
  format_date = λ t. "0001-01-01";
  format_time = λ t. "0001-01-01T00:00:00Z";
  format_stamp = λ t. "0001-01-01T00:00:00Z";
  format_number = λ n. "1";
  format_score = λ n. "37.8";
}

pub quiet-IsHealthy : IsHealthy quiet
quiet-IsHealthy n = refl

abbrev pub position_run : ReconRun
position_run = record {
  id = "run-1";
  entity_type = "position";
  as_of_date = 86_400_000_000_000;
  status = "running";
  started_at = 0;
  completed_at = none;
}

abbrev pub holding : String → String → ℤ → ℤ → String → Position ℤ
holding id security_id quantity market_value source = record {
  id = id;
  account_id = "acc-1";
  security_id = security_id;
  quantity = quantity;
  market_value = market_value;
  as_of_date = 86_400_000_000_000;
  source = source;
  batch_id = none;
}

abbrev pub ours : Position ℤ
ours = holding "p-1" "AAPL" (pos 100) (pos 5_000) "internal"

abbrev pub theirs : Position ℤ
theirs = holding "q-1" "AAPL" (pos 90) (pos 5_000) "custodian"

abbrev pub trade : String → ℤ → String → Transaction ℤ
trade id amount source = record {
  id = id;
  account_id = "acc-1";
  security_id = "AAPL";
  txn_type = "buy";
  quantity = pos 10;
  price = pos 5;
  amount = amount;
  trade_date = 86_400_000_000_000;
  settle_date = 172_800_000_000_000;
  source = source;
  batch_id = none;
}

abbrev pub quantity_result : ReconResultRow
quantity_result = record {
  id = "res-1";
  run_id = "run-1";
  entity_type = "position";
  entity_id = "p-1";
  status = status_break;
  reason_code = some pos_quantity_mismatch;
  details = "position_quantity";
}

abbrev pub quantity_exception : Exception
quantity_exception = record {
  id = "exc-1";
  recon_run_id = "run-1";
  entity_type = "position";
  entity_id = "p-1";
  reason_code = pos_quantity_mismatch;
  status = "open";
  assigned_to = "";
  created_at = 0;
  updated_at = 0;
}

abbrev pub database : World ℤ
database = record {
  tables = record {
    positions =
        ours
        ∷ theirs
        ∷ holding "p-2" "MSFT" (pos 5) (pos 70) "internal"
        ∷ holding "q-3" "TSLA" (pos 7) (negsuc 0) "custodian"
        ∷ [];
    transactions = [];
    recon_runs = position_run ∷ [];
    recon_results = quantity_result ∷ [];
    exceptions = quantity_exception ∷ [];
    exception_events = [];
    trust_scores = [];
    lineage_edges = [];
    replay_cases = [];
    raw_records = [];
    ingestion_batches = [];
  };
  calls = 0;
  ids = 0;
  ticks = 0;
}

abbrev pub tolerances : ReconConfig ℤ
tolerances = record { price_tolerance = pos 1; quantity_tolerance = pos 0 }
