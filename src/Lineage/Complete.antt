-- ===== src/Lineage/Complete.antt =====
-- The edges of the graphs of internal/lineage/service.go where the database serves every call.
use trust_lot.Prelude.{String, Option, some, ◌==◌, ◌≡◌, refl, ◌∙◌, arith, All, if◌then◌else◌}
use trust_lot.Platform.{Float64, Env, IsHealthy}
use trust_lot.Db.Tables.{Tables}
use trust_lot.Db.Exec.{ok, World, Exec, pure, ◌>>=◌}
use trust_lot.Lineage.Graph.{
  LineageEdge, LineageGraph, GraphBuilder, MapOrder, IsMapOrder, edge_less, new_builder, build,
}
use trust_lot.Lineage.Service.{
  add_position_lineage, add_transaction_lineage, entity_lineage, get_lineage_for_entity,
}
use trust_lot.Lineage.Keys.{has_key, has_key-sort_by, has_key-perm}
use trust_lot.Lineage.Exact.{has_edge, IsPlainEdge, same_edges}
use trust_lot.Lineage.Expected.{expected_edges}
use trust_lot.Lineage.Located.{batch_of, entity-Draws}

module _ {N : Type 0} (o : MapOrder N) (order : IsMapOrder o) where
  pub build-has_key :
      (k : String) (b : GraphBuilder N) → has_key k (build ⦃o = o⦄ b).edges ≡ has_key k b.edge_set
  unfolding build
  build-has_key k b =
      has_key-sort_by k edge_less (o.visit_edges b.edge_set)
      ∙ has_key-perm k _ _ (order.edges_once b.edge_set)

module _ {N : Type 0} ⦃f : Float64 N⦄ ⦃env : Env⦄ where
  -- The switch on the entity's type, without its default.
  abbrev pub added : String → String → GraphBuilder N → Exec N (GraphBuilder N)
  added ty id b =
      if ty == "position"
      then add_position_lineage id b
      else if ty == "transaction"
      then add_transaction_lineage id b
      else pure b

  entity_lineage-added :
      (t : Tables N) (ty id : String) (batch_id : Option String)
      → batch_of t ty id ≡ some batch_id
      → entity_lineage ty id ≡ added ty id (new_builder ty id)
  unfolding entity_lineage
  entity_lineage-added t ty id batch_id h = ground arith

module _ {N : Type 0} ⦃f : Float64 N⦄ ⦃env : Env⦄ (healthy : IsHealthy env) (w : World N)
    (id : String) where
  -- Where the database serves every call and holds the position or transaction, GetLineageForEntity
  -- returns a graph whose edges are, by their ends and their type, just those that the tables ask for:
  -- from each raw record of its batch to the record, from the batch to each of them where the batch is
  -- there, from the record to each result and each exception on it, and to its score if it has one; where
  -- no id of these edges has a bar in it and Go visits each entry of a map once.
  pub get_lineage_for_entity-edges :
      (o : MapOrder N)
      → IsMapOrder o
      → (entity_type : String) (batch_id : Option String)
      → batch_of w.tables entity_type id ≡ some batch_id
      → All IsPlainEdge (expected_edges w.tables entity_type id batch_id)
      → (g : LineageGraph N) × ((get_lineage_for_entity ⦃o = o⦄ entity_type id w).0 ≡ ok g)
        × ((e : LineageEdge)
            → has_edge e g.edges ≡ has_edge e (expected_edges w.tables entity_type id batch_id))
  unfolding get_lineage_for_entity new_builder pure ◌>>=◌
  get_lineage_for_entity-edges o order ty batch_id h plain =
      let (c, v, done, _, drawn) =
        entity-Draws healthy w id (new_builder ty id) (λ x. added x id (new_builder ty id) w) refl
          refl ty batch_id h in
      (
        build ⦃o = o⦄ c,
        rw (entity_lineage-added w.tables ty id batch_id h, done) refl,
        same_edges (build ⦃o = o⦄ c).edges _
            (λ k. build-has_key o order k c ∙ drawn k ∙ ground arith) plain,
      )
