-- ===== src/Lineage/Raised.antt =====
-- The edges of the graphs that GetLineageForException of internal/lineage/service.go returns where the
-- database serves every call.
use trust_lot.Prelude.{
  suc, String, Option, none, some, ◌&&◌, ◌||◌, List, [], ◌∷◌, ◌++◌, map, ◌==◌, find, ◌≡◌, refl,
  subst, arith, ◌∙◌, All,
}
use trust_lot.Platform.{Float64, Env, IsHealthy}
use trust_lot.Model.{ReconResult, Exception}
use trust_lot.Db.Tables.{Tables}
use trust_lot.Db.Exec.{ok, recover, wrap, row, World, Exec, query, on_error, attempt, pure, ◌>>=◌}
use trust_lot.Db.Recon.{of_row, get_recon_result_for_exception}
use trust_lot.Db.Exceptions.{get_exception}
use trust_lot.Db.Scores.{is_for}
use trust_lot.Lineage.Graph.{
  LineageEdge, LineageGraph, GraphBuilder, MapOrder, IsMapOrder, new_builder, add_node, add_edge,
  build,
}
use trust_lot.Lineage.Nodes.{edge, exception_node}
use trust_lot.Lineage.Links.{with_result_edge}
use trust_lot.Lineage.Service.{add_trust_score, exception_lineage, get_lineage_for_exception}
use trust_lot.Lineage.Keys.{has_key, has_key-put, has_key-append}
use trust_lot.Lineage.Exact.{has_edge, IsPlainEdge, same_edges}
use trust_lot.Lineage.Expected.{scored, expected_edges, Draws, Draws-then}
use trust_lot.Lineage.Around.{score-Draws}
use trust_lot.Lineage.Located.{batch_of, entity-Draws}
use trust_lot.Lineage.Complete.{build-has_key, added}

-- The edges around an exception: those of its record, one from the record to it, one from its result to
-- it if there is one, and one to the record's score if it has one.
abbrev from_result : String → Option ReconResult → List LineageEdge
from_result id none = []
from_result id (some r) = edge r.id id "raised_exception" ∷ []

abbrev pub result_behind : {N : Type 0} → Tables N → Exception → Option ReconResult
result_behind t e =
    find
      (λ r.
        r.run_id == e.recon_run_id && r.entity_type == e.entity_type && r.entity_id == e.entity_id)
      (map of_row t.recon_results)

abbrev pub exception_edges : {N : Type 0} → Tables N → Exception → List LineageEdge
exception_edges t e =
    edge e.entity_id e.id "raised_exception" ∷ from_result e.id (result_behind t e)
    ++ scored e.entity_id (find (is_for e.entity_type e.entity_id) t.trust_scores)

result_drawn :
    {N : Type 0} (k id context : String) (o : Option ReconResult) (b : GraphBuilder N)
    → has_key k (with_result_edge id b (recover (wrap context) (row o))).edge_set
      ≡ (has_key k (from_result id o) || has_key k b.edge_set)
unfolding add_edge
result_drawn k id context none b = refl
result_drawn k id context (some r) b =
    ground (arith, has_key-put k (edge r.id id "raised_exception") b.edge_set)

module _ {N : Type 0} ⦃f : Float64 N⦄ ⦃env : Env⦄ (healthy : IsHealthy env) where
  -- The end of GetLineageForException.
  abbrev around_exception : Exception → GraphBuilder N → Exec N (GraphBuilder N)
  around_exception e entity = do
    let linked = add_edge (edge e.entity_id e.id "raised_exception") entity
    found ← attempt (get_recon_result_for_exception e.recon_run_id e.entity_type e.entity_id)
    add_trust_score e.entity_type e.entity_id (with_result_edge e.id linked found)

  exception-Draws :
      (e : Exception) (b : GraphBuilder N) (w : World N)
      → Draws w.tables b (exception_edges w.tables e) (around_exception e b w)
  unfolding get_recon_result_for_exception query on_error attempt add_edge ◌>>=◌
  exception-Draws e b w =
      let linked = add_edge (edge e.entity_id e.id "raised_exception") b in
      let o = result_behind w.tables e in
      let v : World N = record w { calls = suc w.calls } in
      let ends =
        with_result_edge e.id linked (recover (wrap "get recon result for exception") (row o)) in
      let (c, u, done, same, drawn) = score-Draws healthy e.entity_type e.entity_id ends v in
      (
        c,
        u,
        simp healthy done,
        same,
        λ k. ground (
          arith,
          drawn k,
          result_drawn k e.id "get recon result for exception" o linked,
          has_key-put k (edge e.entity_id e.id "raised_exception") b.edge_set,
          has_key-append k (from_result e.id o)
              (scored e.entity_id (find (is_for e.entity_type e.entity_id) w.tables.trust_scores)),
        ),
      )

  -- Where the database serves every call and holds the exception and the position or transaction that it
  -- is on, GetLineageForException returns a graph whose edges are, by their ends and their type, just
  -- those of the record's own graph, one from the record to the exception, one from the result that raised
  -- it, the first on the record in its run, to the exception if there is one, and one to the record's score
  -- if it has one; where no id of these edges has a bar in it and Go visits each entry of a map once.
  pub get_lineage_for_exception-edges :
      (o : MapOrder N)
      → IsMapOrder o
      → (w : World N) (id : String) (e : Exception) (batch_id : Option String)
      → find (λ x. x.id == id) w.tables.exceptions ≡ some e
      → batch_of w.tables e.entity_type e.entity_id ≡ some batch_id
      → All IsPlainEdge
          (expected_edges w.tables e.entity_type e.entity_id batch_id ++ exception_edges w.tables e)
      → (g : LineageGraph N) × ((get_lineage_for_exception ⦃o = o⦄ id w).0 ≡ ok g)
        × ((d : LineageEdge)
            → has_edge d g.edges
              ≡ has_edge d (
                  expected_edges w.tables e.entity_type e.entity_id batch_id
                  ++ exception_edges w.tables e))
  unfolding get_lineage_for_exception exception_lineage get_exception query on_error add_node
      new_builder pure ◌>>=◌
  get_lineage_for_exception-edges o order w id e batch_id found located plain =
      let v : World N = record w { calls = suc w.calls } in
      let b = add_node (exception_node e) (new_builder "exception" id) in
      let entity =
        entity-Draws healthy v e.entity_id b (λ ty. added ty e.entity_id b v) refl refl
          e.entity_type batch_id located in
      let (c, u, done, _, drawn) =
        Draws-then w.tables b _ (exception_edges w.tables e) _ (around_exception e) entity
          (λ d x same.
            subst (λ t. Draws t d (exception_edges t e) (around_exception e d x)) same
              (exception-Draws e d x)) in
      (
        build ⦃o = o⦄ c,
        simp (healthy, found, done),
        same_edges (build ⦃o = o⦄ c).edges _
            (λ k. build-has_key o order k c ∙ drawn k ∙ ground arith) plain,
      )
