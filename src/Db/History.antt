-- ===== src/Db/History.antt =====
-- internal/db/store.go: the queries on raw_records and ingestion_batches.
use trust_lot.Prelude.{String, List, ◌==◌, keep, find, ltb, sort_by}
use trust_lot.Platform.{Env}
use trust_lot.Model.{RawRecord, IngestionBatch}
use trust_lot.Db.Exec.{Exec, ok, query, row, with_context}

module _ {N : Type 0} ⦃env : Env⦄ where
  -- `ORDER BY seq_num`
  unfoldable pub list_raw_records_by_batch : String → Exec N (List RawRecord)
  unfolding sort_by
  list_raw_records_by_batch batch_id = with_context "list raw records by batch" (
      query λ t. ok (
        sort_by (λ a b. ltb a.seq_num b.seq_num)
          (keep (λ r. r.batch_id == batch_id) t.raw_records)))

  unfoldable pub get_ingestion_batch : String → Exec N IngestionBatch
  get_ingestion_batch id =
      with_context "get ingestion batch"
        (query λ t. row (find (λ b. b.id == id) t.ingestion_batches))
