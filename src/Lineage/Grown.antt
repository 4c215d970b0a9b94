-- ===== src/Lineage/Grown.antt =====
-- The invariants of the graph builder through the loops of internal/lineage/service.go.
use trust_lot.Prelude.{String, true, List, [], ◌∷◌, ◌≡◌, refl, All}
use trust_lot.Prelude.Sorting.{All-imp_on}
use trust_lot.Platform.{Env}
use trust_lot.Model.{RawRecord, IngestionBatch, ReconResult, Exception}
use trust_lot.Db.Tables.{TrustScoreRow}
use trust_lot.Db.Exec.{Result, ok, err}
use trust_lot.Lineage.Graph.{LineageNode, GraphBuilder, add_node, add_edge, node_type_order}
use trust_lot.Lineage.Nodes.{
  edge, recon_result_node, exception_node, batch_node, raw_record_node, trust_score_node,
}
use trust_lot.Lineage.Links.{
  link_results, link_exceptions, link_batch, link_raw_records, with_batch, with_results,
  with_exceptions, with_score,
}
use trust_lot.Lineage.Builder.{
  IsBuilt, IsClosed, has_id, is_known, add_node-IsBuilt, add_edge-IsBuilt, add_node-has_id,
  add_node-has_self, add_node-IsClosed, add_edge-IsClosed,
}

-- The invariants, and a node that the next edges start from or end at.
pub record Holds {N : Type 0} (k : String) (b : GraphBuilder N) : Type 0 where
  pub built : IsBuilt b
  pub closed : IsClosed b
  pub here : has_id k b.node_map ≡ true

pub known_types :
    (is_known "recon_result" ≡ true)
    × (is_known "exception" ≡ true)
    × (is_known "ingestion_batch" ≡ true)
    × (is_known "raw_record" ≡ true)
    × (is_known "trust_score" ≡ true)
    × (is_known "position" ≡ true)
    × (is_known "transaction" ≡ true)
unfolding node_type_order
known_types = (refl, refl, refl, refl, refl, refl, refl)

module _ {N : Type 0} where
  pub add_node-Holds :
      (k : String) (n : LineageNode N) (b : GraphBuilder N)
      → is_known n.type ≡ true
      → Holds k b
      → Holds k (add_node n b)
  add_node-Holds k n b h s = record {
    built = add_node-IsBuilt n b h s.built;
    closed = add_node-IsClosed n b s.closed;
    here = add_node-has_id k n b s.here;
  }

  -- The first node of an entity.
  pub root-Holds :
      (n : LineageNode N) (b : GraphBuilder N)
      → is_known n.type ≡ true
      → IsBuilt b
      → IsClosed b
      → Holds n.id (add_node n b)
  root-Holds n b h k c = record {
    built = add_node-IsBuilt n b h k;
    closed = add_node-IsClosed n b c;
    here = add_node-has_self n b;
  }

  add_edge-Holds :
      (k x y t : String) (b : GraphBuilder N)
      → has_id x b.node_map ≡ true
      → has_id y b.node_map ≡ true
      → Holds k b
      → Holds k (add_edge (edge x y t) b)
  unfolding add_edge
  add_edge-Holds k x y t b hx hy s = record {
    built = add_edge-IsBuilt (edge x y t) b s.built;
    closed = add_edge-IsClosed (edge x y t) b hx hy s.closed;
    here = s.here;
  }

  -- A new node and an edge from the entity to it, or from it to the entity.
  down-Holds :
      (k t : String) (n : LineageNode N) (b : GraphBuilder N)
      → is_known n.type ≡ true
      → Holds k b
      → Holds k (add_edge (edge k n.id t) (add_node n b))
  down-Holds k t n b h s =
      add_edge-Holds k k n.id t (add_node n b) (add_node-has_id k n b s.here)
        (add_node-has_self n b) (add_node-Holds k n b h s)

  up-Holds :
      (k t : String) (n : LineageNode N) (b : GraphBuilder N)
      → is_known n.type ≡ true
      → Holds k b
      → Holds k (add_edge (edge n.id k t) (add_node n b))
  up-Holds k t n b h s =
      add_edge-Holds k n.id k t (add_node n b) (add_node-has_self n b)
        (add_node-has_id k n b s.here) (add_node-Holds k n b h s)

  link_results-Holds :
      (k : String) (rs : List ReconResult) (b : GraphBuilder N)
      → Holds k b
      → Holds k (link_results k rs b)
  unfolding link_results recon_result_node
  link_results-Holds k [] b s = s
  link_results-Holds k (r ∷ rs) b s =
      link_results-Holds k rs _
        (down-Holds k "reconciled_as" (recon_result_node r) b known_types.0 s)

  link_exceptions-Holds :
      (k : String) (es : List Exception) (b : GraphBuilder N)
      → Holds k b
      → Holds k (link_exceptions k es b)
  unfolding link_exceptions exception_node
  link_exceptions-Holds k [] b s = s
  link_exceptions-Holds k (e ∷ es) b s =
      link_exceptions-Holds k es _
        (down-Holds k "raised_exception" (exception_node e) b known_types.1 s)

  link_batch-Holds :
      (k batch_id : String) (rs : List RawRecord) (b : GraphBuilder N)
      → has_id batch_id b.node_map ≡ true
      → All (λ r. has_id r.id b.node_map ≡ true) rs
      → Holds k b
      → Holds k (link_batch batch_id rs b)
  unfolding link_batch add_edge
  link_batch-Holds k batch_id [] b h hs s = s
  link_batch-Holds k batch_id (r ∷ rs) b h hs s =
      link_batch-Holds k batch_id rs _ h hs.1 (add_edge-Holds k batch_id r.id "contains" b h hs.0 s)

  pub with_results-Holds :
      (k : String) (b : GraphBuilder N) (r : Result (List ReconResult))
      → Holds k b
      → Holds k (with_results k b r)
  with_results-Holds k b (ok rs) s = link_results-Holds k rs b s
  with_results-Holds k b (err e) s = s

  pub with_exceptions-Holds :
      (k : String) (b : GraphBuilder N) (r : Result (List Exception))
      → Holds k b
      → Holds k (with_exceptions k b r)
  with_exceptions-Holds k b (ok es) s = link_exceptions-Holds k es b s
  with_exceptions-Holds k b (err e) s = s

  add_batch-Holds :
      (k : String) (n : LineageNode N) (rs : List RawRecord) (b : GraphBuilder N)
      → is_known n.type ≡ true
      → All (λ r. has_id r.id b.node_map ≡ true) rs
      → Holds k b
      → Holds k (link_batch n.id rs (add_node n b))
  add_batch-Holds k n rs b h hs s =
      link_batch-Holds k n.id rs (add_node n b) (add_node-has_self n b)
        (All-imp_on _ _ (λ r l. add_node-has_id r.id n b l) rs hs) (add_node-Holds k n b h s)

  pub with_batch-Holds :
      (k : String) (rs : List RawRecord) (b : GraphBuilder N) (r : Result IngestionBatch)
      → All (λ r. has_id r.id b.node_map ≡ true) rs
      → Holds k b
      → Holds k (with_batch rs b r)
  unfolding batch_node
  with_batch-Holds k rs b (ok batch) hs s =
      add_batch-Holds k (batch_node batch) rs b known_types.2 hs s
  with_batch-Holds k rs b (err e) hs s = s

module _ {N : Type 0} ⦃env : Env⦄ where
  link_raw_records-has_id :
      (k x : String) (rs : List RawRecord) (b : GraphBuilder N)
      → has_id x b.node_map ≡ true
      → has_id x (link_raw_records k rs b).node_map ≡ true
  unfolding link_raw_records add_edge
  link_raw_records-has_id k x [] b h = h
  link_raw_records-has_id k x (r ∷ rs) b h =
      link_raw_records-has_id k x rs _ (add_node-has_id x (raw_record_node r) b h)

  -- Each record of the batch is a node afterwards.
  pub link_raw_records-All :
      (k : String) (rs : List RawRecord) (b : GraphBuilder N)
      → All (λ r. has_id r.id (link_raw_records k rs b).node_map ≡ true) rs
  unfolding link_raw_records add_edge raw_record_node
  link_raw_records-All k [] b = tt
  link_raw_records-All k (r ∷ rs) b = (
    link_raw_records-has_id k r.id rs _ (add_node-has_self (raw_record_node r) b),
    link_raw_records-All k rs _,
  )

  pub link_raw_records-Holds :
      (k : String) (rs : List RawRecord) (b : GraphBuilder N)
      → Holds k b
      → Holds k (link_raw_records k rs b)
  unfolding link_raw_records raw_record_node
  link_raw_records-Holds k [] b s = s
  link_raw_records-Holds k (r ∷ rs) b s =
      link_raw_records-Holds k rs _
        (up-Holds k "normalized_to" (raw_record_node r) b known_types.3 s)

  pub with_score-Holds :
      (k : String) (b : GraphBuilder N) (r : Result TrustScoreRow)
      → Holds k b
      → Holds k (with_score k b r)
  unfolding trust_score_node
  with_score-Holds k b (ok ts) s = down-Holds k "scored_as" (trust_score_node ts) b known_types.4 s
  with_score-Holds k b (err e) s = s

  pub with_score-IsBuilt :
      (k : String) (b : GraphBuilder N) (r : Result TrustScoreRow)
      → IsBuilt b
      → IsBuilt (with_score k b r)
  unfolding trust_score_node
  with_score-IsBuilt k b (ok ts) h =
      add_edge-IsBuilt (edge k ts.id "scored_as") _
        (add_node-IsBuilt (trust_score_node ts) b known_types.4 h)
  with_score-IsBuilt k b (err e) h = h
