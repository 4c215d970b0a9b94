-- ===== src/Lineage/Links.antt =====
-- internal/lineage/service.go: the loops that add the rows found to a builder. Where a query failed,
-- the builder stays as it is.
use trust_lot.Prelude.{String, List, [], ◌∷◌}
use trust_lot.Platform.{Env}
use trust_lot.Model.{RawRecord, IngestionBatch, ReconResult, Exception}
use trust_lot.Db.Tables.{TrustScoreRow}
use trust_lot.Db.Exec.{Result, ok, err}
use trust_lot.Lineage.Graph.{GraphBuilder, add_node, add_edge}
use trust_lot.Lineage.Nodes.{
  edge, recon_result_node, exception_node, batch_node, raw_record_node, trust_score_node,
}

module _ {N : Type 0} where
  -- The loop of addReconResultsForEntity.
  unfoldable pub link_results : String → List ReconResult → GraphBuilder N → GraphBuilder N
  unfolding add_node add_edge recon_result_node
  link_results entity_id [] b = b
  link_results entity_id (r ∷ rs) b =
      link_results entity_id rs
        (add_edge (edge entity_id r.id "reconciled_as") (add_node (recon_result_node r) b))

  -- The loop of addExceptionsForEntity.
  unfoldable pub link_exceptions : String → List Exception → GraphBuilder N → GraphBuilder N
  unfolding add_node add_edge exception_node
  link_exceptions entity_id [] b = b
  link_exceptions entity_id (e ∷ es) b =
      link_exceptions entity_id es
        (add_edge (edge entity_id e.id "raised_exception") (add_node (exception_node e) b))

  -- The second loop of addRawRecords.
  unfoldable pub link_batch : String → List RawRecord → GraphBuilder N → GraphBuilder N
  unfolding add_edge
  link_batch batch_id [] b = b
  link_batch batch_id (r ∷ rs) b =
      link_batch batch_id rs (add_edge (edge batch_id r.id "contains") b)

  abbrev pub with_batch : List RawRecord → GraphBuilder N → Result IngestionBatch → GraphBuilder N
  with_batch records b (ok batch) = link_batch batch.id records (add_node (batch_node batch) b)
  with_batch records b (err e) = b

  abbrev pub with_results : String → GraphBuilder N → Result (List ReconResult) → GraphBuilder N
  with_results entity_id b (ok rs) = link_results entity_id rs b
  with_results entity_id b (err e) = b

  abbrev pub with_exceptions : String → GraphBuilder N → Result (List Exception) → GraphBuilder N
  with_exceptions entity_id b (ok es) = link_exceptions entity_id es b
  with_exceptions entity_id b (err e) = b

  -- `rr, err := ...; if err == nil { b.addEdge(...) }`
  abbrev pub with_result_edge : String → GraphBuilder N → Result ReconResult → GraphBuilder N
  with_result_edge exception_id b (ok r) = add_edge (edge r.id exception_id "raised_exception") b
  with_result_edge exception_id b (err e) = b

module _ {N : Type 0} ⦃env : Env⦄ where
  -- The first loop of addRawRecords.
  unfoldable pub link_raw_records : String → List RawRecord → GraphBuilder N → GraphBuilder N
  unfolding add_node add_edge raw_record_node
  link_raw_records entity_id [] b = b
  link_raw_records entity_id (r ∷ rs) b =
      link_raw_records entity_id rs
        (add_edge (edge r.id entity_id "normalized_to") (add_node (raw_record_node r) b))

  abbrev pub with_score : String → GraphBuilder N → Result TrustScoreRow → GraphBuilder N
  with_score entity_id b (ok ts) =
      add_edge (edge entity_id ts.id "scored_as") (add_node (trust_score_node ts) b)
  with_score entity_id b (err e) = b
