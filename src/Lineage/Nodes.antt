-- ===== src/Lineage/Nodes.antt =====
-- internal/lineage/service.go: the nodes and edges that stand for rows of the database.
use trust_lot.Prelude.{String, [], ◌∷◌, concat}
use trust_lot.Platform.{Float64, Env}
use trust_lot.Model.{Position, Transaction, RawRecord, IngestionBatch, ReconResult, Exception}
use trust_lot.Db.Tables.{TrustScoreRow}
use trust_lot.Lineage.Graph.{text, whole, number, score, LineageNode, LineageEdge}

abbrev pub edge : String → String → String → LineageEdge
edge from_id to_id edge_type = record { from_id = from_id; to_id = to_id; edge_type = edge_type }

module _ {N : Type 0} where
  unfoldable pub recon_result_node : ReconResult → LineageNode N
  recon_result_node r = record {
    id = r.id;
    type = "recon_result";
    label = concat ("Recon: " ∷ r.status ∷ []);
    metadata =
        ("run_id", text r.run_id)
        ∷ ("status", text r.status)
        ∷ ("reason_code", text r.reason_code)
        ∷ ("details", text r.details)
        ∷ [];
  }

  unfoldable pub exception_node : Exception → LineageNode N
  exception_node e = record {
    id = e.id;
    type = "exception";
    label = concat ("Exception: " ∷ e.reason_code ∷ []);
    metadata =
        ("status", text e.status)
        ∷ ("reason_code", text e.reason_code)
        ∷ ("assigned_to", text e.assigned_to)
        ∷ [];
  }

  unfoldable pub batch_node : IngestionBatch → LineageNode N
  batch_node batch = record {
    id = batch.id;
    type = "ingestion_batch";
    label = concat ("Batch: " ∷ batch.file_ref ∷ []);
    metadata =
        ("custodian_id", text batch.custodian_id)
        ∷ ("status", text batch.status)
        ∷ ("record_count", whole batch.record_count)
        ∷ ("file_ref", text batch.file_ref)
        ∷ [];
  }

module _ {N : Type 0} ⦃env : Env⦄ where
  unfoldable pub raw_record_node : RawRecord → LineageNode N
  raw_record_node r = record {
    id = r.id;
    type = "raw_record";
    label = concat ("Raw Record #" ∷ env.format_number r.seq_num ∷ []);
    metadata = ("batch_id", text r.batch_id) ∷ ("seq_num", whole r.seq_num) ∷ [];
  }

  unfoldable pub trust_score_node : TrustScoreRow → LineageNode N
  trust_score_node ts = record {
    id = ts.id;
    type = "trust_score";
    label = concat ("Trust Score: " ∷ env.format_score ts.total ∷ []);
    metadata =
        ("total", score ts.total)
        ∷ ("rationale_summary", text ts.rationale_summary)
        ∷ ("computed_at", text (env.format_stamp ts.computed_at))
        ∷ [];
  }

module _ {N : Type 0} ⦃f : Float64 N⦄ ⦃env : Env⦄ where
  unfoldable pub position_node : Position N → LineageNode N
  position_node p = record {
    id = p.id;
    type = "position";
    label = concat ("Position: " ∷ p.source ∷ " qty=" ∷ f.fixed 2 p.quantity ∷ []);
    metadata =
        ("account_id", text p.account_id)
        ∷ ("security_id", text p.security_id)
        ∷ ("quantity", number p.quantity)
        ∷ ("market_value", number p.market_value)
        ∷ ("as_of_date", text (env.format_date p.as_of_date))
        ∷ ("source", text p.source)
        ∷ [];
  }

  unfoldable pub transaction_node : Transaction N → LineageNode N
  transaction_node t = record {
    id = t.id;
    type = "transaction";
    label =
        concat
          ("Transaction: " ∷ t.txn_type ∷ " " ∷ t.source ∷ " qty=" ∷ f.fixed 2 t.quantity ∷ []);
    metadata =
        ("account_id", text t.account_id)
        ∷ ("security_id", text t.security_id)
        ∷ ("txn_type", text t.txn_type)
        ∷ ("quantity", number t.quantity)
        ∷ ("price", number t.price)
        ∷ ("amount", number t.amount)
        ∷ ("trade_date", text (env.format_date t.trade_date))
        ∷ ("settle_date", text (env.format_date t.settle_date))
        ∷ ("source", text t.source)
        ∷ [];
  }
