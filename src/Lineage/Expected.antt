-- ===== src/Lineage/Expected.antt =====
-- The edges around a record that internal/lineage/service.go should draw, from the tables.
use trust_lot.Prelude.{
  String, Bool, Option, none, some, ◌&&◌, ◌||◌, List, [], ◌∷◌, ◌++◌, map, ◌==◌, find, keep, sort_by,
  ◌≡◌, refl, arith,
}
use trust_lot.Platform.{Env}
use trust_lot.Model.{ReconResult, Exception, RawRecord, IngestionBatch}
use trust_lot.Db.Tables.{Tables, TrustScoreRow}
use trust_lot.Db.Exec.{Exec, proceed, recover, wrap, Result, ok, World, row}
use trust_lot.Db.Recon.{of_row}
use trust_lot.Db.Scores.{is_for}
use trust_lot.Lineage.Graph.{LineageEdge, GraphBuilder, add_edge, add_node}
use trust_lot.Lineage.Nodes.{edge, batch_node}
use trust_lot.Lineage.Links.{with_batch, with_score}
use trust_lot.Lineage.Keys.{
  has_key, has_key-put, has_key-append, sorted-has_key, result_edge, exception_edge, raw_edge,
  batch_edge, link_batch-has_key,
}

-- The edges around a record, from the tables.
abbrev pub contained : Option IngestionBatch → List RawRecord → List LineageEdge
contained none raws = []
contained (some batch) raws = map (batch_edge batch.id) raws

abbrev pub scored : String → Option TrustScoreRow → List LineageEdge
scored id none = []
scored id (some ts) = edge id ts.id "scored_as" ∷ []

pub contained_sorted :
    (k : String) (o : Option IngestionBatch) (less : RawRecord → RawRecord → Bool)
    (rs : List RawRecord)
    → has_key k (contained o (sort_by less rs)) ≡ has_key k (contained o rs)
contained_sorted k none less rs = refl
contained_sorted k (some batch) less rs = sorted-has_key k (batch_edge batch.id) less rs

module _ {N : Type 0} where
  abbrev pub raws_of : Tables N → String → List RawRecord
  raws_of t batch_id = keep (λ r. r.batch_id == batch_id) t.raw_records

  abbrev pub results_of : Tables N → String → String → List ReconResult
  results_of t entity_type id =
      keep (λ r. r.entity_type == entity_type && r.entity_id == id) (map of_row t.recon_results)

  abbrev pub exceptions_of : Tables N → String → String → List Exception
  exceptions_of t entity_type id =
      keep (λ e. e.entity_type == entity_type && e.entity_id == id) t.exceptions

  -- From the raw records of the batch to the record, and from the batch to them.
  abbrev pub upstream_edges : Tables N → String → Option String → List LineageEdge
  upstream_edges t id none = []
  upstream_edges t id (some batch_id) =
      map (raw_edge id) (raws_of t batch_id)
      ++ contained (find (λ b. b.id == batch_id) t.ingestion_batches) (raws_of t batch_id)

  abbrev pub expected_edges : Tables N → String → String → Option String → List LineageEdge
  expected_edges t entity_type id batch_id =
      upstream_edges t id batch_id
      ++ (map (result_edge id) (results_of t entity_type id)
          ++ (map (exception_edge id) (exceptions_of t entity_type id)
              ++ scored id (find (is_for entity_type id) t.trust_scores)))

  pub batch_drawn :
      (k : String) (o : Option IngestionBatch) (rs : List RawRecord) (b : GraphBuilder N)
      → has_key k (with_batch rs b (recover (wrap "get ingestion batch") (row o))).edge_set
        ≡ (has_key k (contained o rs) || has_key k b.edge_set)
  unfolding add_node
  batch_drawn k none rs b = refl
  batch_drawn k (some batch) rs b = link_batch-has_key k batch.id rs (add_node (batch_node batch) b)

  pub score_drawn :
      ⦃env : Env⦄ (k id : String) (o : Option TrustScoreRow) (b : GraphBuilder N)
      → has_key k (with_score id b (recover (wrap "get trust score for entity") (row o))).edge_set
        ≡ (has_key k (scored id o) || has_key k b.edge_set)
  unfolding add_edge add_node
  score_drawn k id none b = refl
  score_drawn k id (some ts) b =
      ground (arith, has_key-put k (edge id ts.id "scored_as") b.edge_set)

  -- A step succeeds, keeps the tables, and adds these edges to those of the builder.
  abbrev pub Draws :
      Tables N → GraphBuilder N → List LineageEdge → Result (GraphBuilder N) × World N → Type 0
  Draws t b ds out =
      (b' : GraphBuilder N) × (w' : World N) × (out ≡ (ok b', w'))
      × (w'.tables ≡ t)
      × ((k : String) → has_key k b'.edge_set ≡ (has_key k ds || has_key k b.edge_set))

  pub Draws-then :
      (t : Tables N) (b : GraphBuilder N) (ds es : List LineageEdge)
      (out : Result (GraphBuilder N) × World N) (f : GraphBuilder N → Exec N (GraphBuilder N))
      → Draws t b ds out
      → ((c : GraphBuilder N) (w : World N) → w.tables ≡ t → Draws t c es (f c w))
      → Draws t b (ds ++ es) (proceed out f)
  Draws-then t b ds es out f (c, w, e, same, drawn) next =
      let (c', w', e', same', drawn') = next c w same in
      (
        c',
        w',
        rw (e, e') refl,
        same',
        λ k. ground (arith, drawn k, drawn' k, has_key-append k ds es),
      )
