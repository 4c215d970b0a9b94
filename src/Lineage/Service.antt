-- ===== src/Lineage/Service.antt =====
-- internal/lineage/service.go: the service over the database. The methods that add to a builder take
-- it and return it. Where the source returns early from an error of a query, the builder stays as is.
use trust_lot.Prelude.{String, Option, none, some, List, [], ◌∷◌, ◌==◌, concat, if◌then◌else◌}
use trust_lot.Platform.{Float64, Env}
use trust_lot.Model.{RawRecord, Exception}
use trust_lot.Db.Exec.{message, Result, ok, err, Exec, pure, raise, with_context, attempt, ◌>>=◌}
use trust_lot.Db.Records.{get_position, get_transaction}
use trust_lot.Db.Recon.{get_recon_result_for_exception, list_recon_results_for_entity}
use trust_lot.Db.Exceptions.{get_exception, list_exceptions_for_entity}
use trust_lot.Db.Scores.{get_trust_score_for_entity}
use trust_lot.Db.History.{list_raw_records_by_batch, get_ingestion_batch}
use trust_lot.Lineage.Graph.{
  LineageGraph, GraphBuilder, MapOrder, new_builder, add_node, add_edge, build,
}
use trust_lot.Lineage.Nodes.{
  edge, exception_node, trust_score_node, position_node, transaction_node,
}
use trust_lot.Lineage.Links.{
  link_results, link_exceptions, link_batch, link_raw_records, with_batch, with_results,
  with_exceptions, with_score, with_result_edge,
}

module _ {N : Type 0} ⦃env : Env⦄ where
  abbrev pub with_raw_records :
      String → String → GraphBuilder N → Result (List RawRecord) → Exec N (GraphBuilder N)
  with_raw_records batch_id entity_id b (err e) = pure b
  with_raw_records batch_id entity_id b (ok records) =
      attempt (get_ingestion_batch batch_id)
      >>= (λ batch. pure (with_batch records (link_raw_records entity_id records b) batch))

  unfoldable pub add_raw_records : String → String → GraphBuilder N → Exec N (GraphBuilder N)
  unfolding link_raw_records link_batch
  add_raw_records batch_id entity_id b =
      attempt (list_raw_records_by_batch batch_id) >>= with_raw_records batch_id entity_id b

  -- `if p.BatchID != nil`
  abbrev pub add_upstream : Option String → String → GraphBuilder N → Exec N (GraphBuilder N)
  add_upstream none entity_id b = pure b
  add_upstream (some batch_id) entity_id b = add_raw_records batch_id entity_id b

  unfoldable pub add_recon_results_for_entity :
      String → String → GraphBuilder N → Exec N (GraphBuilder N)
  unfolding link_results
  add_recon_results_for_entity entity_type entity_id b =
      attempt (list_recon_results_for_entity entity_type entity_id)
      >>= (λ found. pure (with_results entity_id b found))

  unfoldable pub add_exceptions_for_entity :
      String → String → GraphBuilder N → Exec N (GraphBuilder N)
  unfolding link_exceptions
  add_exceptions_for_entity entity_type entity_id b =
      attempt (list_exceptions_for_entity entity_type entity_id)
      >>= (λ found. pure (with_exceptions entity_id b found))

  unfoldable pub add_trust_score : String → String → GraphBuilder N → Exec N (GraphBuilder N)
  unfolding trust_score_node
  add_trust_score entity_type entity_id b =
      attempt (get_trust_score_for_entity entity_type entity_id)
      >>= (λ found. pure (with_score entity_id b found))

  -- The end of addPositionLineage and addTransactionLineage.
  abbrev pub add_around : String → String → Option String → GraphBuilder N → Exec N (GraphBuilder N)
  add_around entity_type entity_id batch_id b = do
    raw ← add_upstream batch_id entity_id b
    results ← add_recon_results_for_entity entity_type entity_id raw
    exceptions ← add_exceptions_for_entity entity_type entity_id results
    add_trust_score entity_type entity_id exceptions

module _ {N : Type 0} ⦃f : Float64 N⦄ ⦃env : Env⦄ where
  unfoldable pub add_position_lineage : String → GraphBuilder N → Exec N (GraphBuilder N)
  unfolding position_node add_raw_records add_recon_results_for_entity add_exceptions_for_entity
      add_trust_score
  add_position_lineage position_id b = do
    p ← with_context "lineage: load position" (get_position position_id)
    add_around "position" p.id p.batch_id (add_node (position_node p) b)

  unfoldable pub add_transaction_lineage : String → GraphBuilder N → Exec N (GraphBuilder N)
  unfolding transaction_node add_raw_records add_recon_results_for_entity add_exceptions_for_entity
      add_trust_score
  add_transaction_lineage transaction_id b = do
    t ← with_context "lineage: load transaction" (get_transaction transaction_id)
    add_around "transaction" t.id t.batch_id (add_node (transaction_node t) b)

  abbrev pub unsupported_lineage : String → Exec N (GraphBuilder N)
  unsupported_lineage entity_type =
      raise (message (concat ("unsupported entity type for lineage: " ∷ entity_type ∷ [])))

  unfoldable pub entity_lineage : String → String → Exec N (GraphBuilder N)
  unfolding add_position_lineage add_transaction_lineage new_builder
  entity_lineage entity_type entity_id =
      let b = new_builder entity_type entity_id in
      if entity_type == "position"
      then add_position_lineage entity_id b
      else if entity_type == "transaction"
      then add_transaction_lineage entity_id b
      else unsupported_lineage entity_type

  unfoldable pub get_lineage_for_entity :
      ⦃o : MapOrder N⦄ → String → String → Exec N (LineageGraph N)
  unfolding entity_lineage build
  get_lineage_for_entity entity_type entity_id =
      entity_lineage entity_type entity_id >>= (λ b. pure (build b))

  -- `switch exc.EntityType`, which has no default.
  abbrev pub add_entity_lineage : Exception → GraphBuilder N → Exec N (GraphBuilder N)
  add_entity_lineage e b =
      if e.entity_type == "position"
      then add_position_lineage e.entity_id b
      else if e.entity_type == "transaction"
      then add_transaction_lineage e.entity_id b
      else pure b

  unfoldable pub exception_lineage : String → Exec N (GraphBuilder N)
  unfolding add_position_lineage add_transaction_lineage new_builder add_trust_score
  exception_lineage exception_id = do
    e ← with_context "lineage: load exception" (get_exception exception_id)
    entity ←
        add_entity_lineage e (add_node (exception_node e) (new_builder "exception" exception_id))
    let linked = add_edge (edge e.entity_id e.id "raised_exception") entity
    found ← attempt (get_recon_result_for_exception e.recon_run_id e.entity_type e.entity_id)
    add_trust_score e.entity_type e.entity_id (with_result_edge e.id linked found)

  unfoldable pub get_lineage_for_exception : ⦃o : MapOrder N⦄ → String → Exec N (LineageGraph N)
  unfolding exception_lineage build
  get_lineage_for_exception exception_id = exception_lineage exception_id >>= (λ b. pure (build b))
