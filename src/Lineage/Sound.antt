-- ===== src/Lineage/Sound.antt =====
-- The graphs that internal/lineage/service.go returns, whatever calls of the database fail.
use trust_lot.Prelude.{String, Option, none, some, List, ◌==◌}
use trust_lot.Platform.{Float64, Env}
use trust_lot.Model.{RawRecord, Exception, ReconResult}
use trust_lot.Db.Exec.{Result, ok, err}
use trust_lot.Db.Returns.{
  Returns, Returns-pure, Returns-raise, Returns-bind, Returns-bind_on, Returns-if, Returns-imp,
}
use trust_lot.Lineage.Graph.{GraphBuilder, new_builder}
use trust_lot.Lineage.Nodes.{exception_node, position_node, transaction_node}
use trust_lot.Lineage.Links.{with_result_edge, link_raw_records}
use trust_lot.Lineage.Service.{
  with_raw_records, add_raw_records, add_upstream, add_recon_results_for_entity,
  add_exceptions_for_entity, add_trust_score, add_around, add_position_lineage,
  add_transaction_lineage, entity_lineage, add_entity_lineage, exception_lineage,
}
use trust_lot.Lineage.Builder.{IsBuilt, IsClosed, add_edge-IsBuilt}
use trust_lot.Lineage.Grown.{
  Holds, known_types, root-Holds, with_results-Holds, with_exceptions-Holds, with_batch-Holds,
  link_raw_records-All, link_raw_records-Holds, with_score-Holds, with_score-IsBuilt,
}

-- The two invariants.
pub record IsWhole {N : Type 0} (b : GraphBuilder N) : Type 0 where
  pub built : IsBuilt b
  pub closed : IsClosed b

module _ {N : Type 0} ⦃env : Env⦄ where
  raw_records-Returns :
      (k batch_id : String) (b : GraphBuilder N) (found : Result (List RawRecord))
      → Holds k b
      → Returns (Holds k) (with_raw_records batch_id k b found)
  raw_records-Returns k batch_id b (err e) s = Returns-pure _ _ s
  raw_records-Returns k batch_id b (ok rs) s = Returns-bind _ _ _ λ batch. Returns-pure _ _ (
      with_batch-Holds k rs (link_raw_records k rs b) batch (link_raw_records-All k rs b)
        (link_raw_records-Holds k rs b s))

  upstream-Returns :
      (k : String) (batch_id : Option String) (b : GraphBuilder N)
      → Holds k b
      → Returns (Holds k) (add_upstream batch_id k b)
  unfolding add_raw_records
  upstream-Returns k none b s = Returns-pure _ _ s
  upstream-Returns k (some batch_id) b s =
      Returns-bind _ _ _ λ found. raw_records-Returns k batch_id b found s

  around-Returns :
      (ty k : String) (batch_id : Option String) (b : GraphBuilder N)
      → Holds k b
      → Returns (Holds k) (add_around ty k batch_id b)
  unfolding add_recon_results_for_entity add_exceptions_for_entity add_trust_score
  around-Returns ty k batch_id b s =
      Returns-bind_on (Holds k) _ _ _ (upstream-Returns k batch_id b s) λ b1 s1.
        Returns-bind_on (Holds k) _ _ _
          (Returns-bind _ _ _ λ found. Returns-pure _ _ (with_results-Holds k b1 found s1))
          λ b2 s2.
            Returns-bind_on (Holds k) _ _ _
              (Returns-bind _ _ _ λ found. Returns-pure _ _ (with_exceptions-Holds k b2 found s2))
              λ b3 s3. Returns-bind _ _ _ λ found. Returns-pure _ _ (with_score-Holds k b3 found s3)

module _ {N : Type 0} where
  pub from-Holds : (k : String) (b : GraphBuilder N) → Holds k b → IsWhole b
  from-Holds k b s = record { built = s.built; closed = s.closed }

  new_builder-IsWhole : (t k : String) → IsWhole (new_builder {N = N} t k)
  unfolding new_builder
  new_builder-IsWhole t k = record {
    built = record { ids = tt; keys = tt; known = tt };
    closed = tt;
  }

  pub with_result_edge-IsBuilt :
      (k : String) (b : GraphBuilder N) (r : Result ReconResult)
      → IsBuilt b
      → IsBuilt (with_result_edge k b r)
  with_result_edge-IsBuilt k b (ok r) h = add_edge-IsBuilt _ b h
  with_result_edge-IsBuilt k b (err e) h = h

module _ {N : Type 0} ⦃f : Float64 N⦄ ⦃env : Env⦄ where
  position-Returns :
      (id : String) (b : GraphBuilder N) → IsWhole b → Returns IsWhole (add_position_lineage id b)
  unfolding add_position_lineage position_node
  position-Returns id b h = Returns-bind IsWhole _ _ λ p.
      Returns-imp (Holds p.id) IsWhole _ (from-Holds p.id) (
        around-Returns "position" p.id p.batch_id _
          (root-Holds (position_node p) b known_types.5 h.built h.closed))

  transaction-Returns :
      (id : String) (b : GraphBuilder N)
      → IsWhole b
      → Returns IsWhole (add_transaction_lineage id b)
  unfolding add_transaction_lineage transaction_node
  transaction-Returns id b h = Returns-bind IsWhole _ _ λ t.
      Returns-imp (Holds t.id) IsWhole _ (from-Holds t.id) (
        around-Returns "transaction" t.id t.batch_id _
          (root-Holds (transaction_node t) b known_types.6 h.built h.closed))

  pub entity-Returns : (ty id : String) → Returns {N = N} IsWhole (entity_lineage ty id)
  unfolding entity_lineage
  entity-Returns ty id =
      Returns-if IsWhole (ty == "position") _ _ (position-Returns id _ (new_builder-IsWhole ty id))
        (Returns-if IsWhole (ty == "transaction") _ _
          (transaction-Returns id _ (new_builder-IsWhole ty id)) (Returns-raise _ _))

  add_entity-Returns :
      (e : Exception) (b : GraphBuilder N) → IsWhole b → Returns IsWhole (add_entity_lineage e b)
  add_entity-Returns e b h =
      Returns-if IsWhole (e.entity_type == "position") _ _ (position-Returns e.entity_id b h) (
        Returns-if IsWhole (e.entity_type == "transaction") _ _
          (transaction-Returns e.entity_id b h) (Returns-pure _ _ h))

  pub exception-Returns : (id : String) → Returns {N = N} IsBuilt (exception_lineage id)
  unfolding exception_lineage add_trust_score exception_node
  exception-Returns id = Returns-bind IsBuilt _ _ λ e.
      let root = new_builder-IsWhole {N = N} "exception" id in
      Returns-bind_on IsWhole IsBuilt _ _
        (add_entity-Returns e _ (
          from-Holds e.id _ (
            root-Holds (exception_node e) (new_builder "exception" id) known_types.1 root.built
              root.closed)))
        λ b h. Returns-bind IsBuilt _ _ λ found. Returns-bind IsBuilt _ _ λ score.
          Returns-pure _ _ (
            with_score-IsBuilt e.entity_id _ score
              (with_result_edge-IsBuilt e.id _ found (add_edge-IsBuilt _ b h.built)))
