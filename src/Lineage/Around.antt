-- ===== src/Lineage/Around.antt =====
-- The steps of internal/lineage/service.go that draw the surroundings of a record, where the database
-- serves every call.
use trust_lot.Prelude.{
  String, Bool, Option, none, some, ◌||◌, map, ◌==◌, find, ltb, sort_by, refl, ap, subst, ◌∙◌, suc,
  arith,
}
use mathlib.Core.List.{reverse}
use trust_lot.Platform.{Env, IsHealthy}
use trust_lot.Model.{RawRecord}
use trust_lot.Db.Exec.{recover, wrap, World, Exec, row, query, attempt, on_error, pure, ◌>>=◌}
use trust_lot.Db.Recon.{list_recon_results_for_entity}
use trust_lot.Db.Exceptions.{newer, list_exceptions_for_entity}
use trust_lot.Db.Scores.{is_for, get_trust_score_for_entity}
use trust_lot.Db.History.{list_raw_records_by_batch, get_ingestion_batch}
use trust_lot.Lineage.Graph.{GraphBuilder}
use trust_lot.Lineage.Links.{
  with_batch, link_raw_records, link_results, link_exceptions, with_score,
}
use trust_lot.Lineage.Service.{
  add_raw_records, add_upstream, add_recon_results_for_entity, add_exceptions_for_entity,
  add_trust_score, add_around,
}
use trust_lot.Lineage.Keys.{
  has_key, has_key-append, sorted-has_key, reversed-has_key, result_edge, exception_edge, raw_edge,
  link_results-has_key, link_exceptions-has_key, link_raw_records-has_key,
}
use trust_lot.Lineage.Expected.{
  contained, scored, raws_of, results_of, exceptions_of, upstream_edges, expected_edges,
  contained_sorted, batch_drawn, score_drawn, Draws, Draws-then,
}

module _ {N : Type 0} ⦃env : Env⦄ (healthy : IsHealthy env) where
  upstream-Draws :
      (batch_id : Option String) (id : String) (b : GraphBuilder N) (w : World N)
      → Draws w.tables b (upstream_edges w.tables id batch_id) (add_upstream batch_id id b w)
  unfolding add_raw_records list_raw_records_by_batch get_ingestion_batch query attempt on_error
      pure ◌>>=◌
  upstream-Draws none id b w = (b, w, refl, refl, λ k. refl)
  upstream-Draws (some batch_id) id b w =
      let less : RawRecord → RawRecord → Bool = λ x y. ltb x.seq_num y.seq_num in
      let raws = raws_of w.tables batch_id in
      let found = find (λ x. x.id == batch_id) w.tables.ingestion_batches in
      let linked = link_raw_records id (sort_by less raws) b in
      (
        with_batch (sort_by less raws) linked (recover (wrap "get ingestion batch") (row found)),
        record w { calls = suc (suc w.calls) },
        simp (healthy, list_raw_records_by_batch, get_ingestion_batch, attempt, on_error, query),
        refl,
        λ k. ground (
          arith,
          batch_drawn k found (sort_by less raws) linked,
          contained_sorted k found less raws,
          link_raw_records-has_key k id (sort_by less raws) b,
          sorted-has_key k (raw_edge id) less raws,
          has_key-append k (map (raw_edge id) raws) (contained found raws),
        ),
      )

  results-Draws :
      (ty id : String) (b : GraphBuilder N) (w : World N)
      → Draws w.tables b
          (map (result_edge id) (results_of w.tables ty id))
          (add_recon_results_for_entity ty id b w)
  unfolding add_recon_results_for_entity list_recon_results_for_entity query attempt on_error pure
      ◌>>=◌
  results-Draws ty id b w =
      let rs = results_of w.tables ty id in
      (
        link_results id (reverse rs) b,
        record w { calls = suc w.calls },
        simp healthy,
        refl,
        λ k.
            link_results-has_key k id (reverse rs) b
            ∙ ap (λ x. x || has_key k b.edge_set) (reversed-has_key k (result_edge id) rs),
      )

  exceptions-Draws :
      (ty id : String) (b : GraphBuilder N) (w : World N)
      → Draws w.tables b
          (map (exception_edge id) (exceptions_of w.tables ty id))
          (add_exceptions_for_entity ty id b w)
  unfolding add_exceptions_for_entity list_exceptions_for_entity query attempt on_error pure ◌>>=◌
  exceptions-Draws ty id b w =
      let es = exceptions_of w.tables ty id in
      (
        link_exceptions id (sort_by newer es) b,
        record w { calls = suc w.calls },
        simp healthy,
        refl,
        λ k.
            link_exceptions-has_key k id (sort_by newer es) b
            ∙ ap (λ x. x || has_key k b.edge_set) (sorted-has_key k (exception_edge id) newer es),
      )

  pub score-Draws :
      (ty id : String) (b : GraphBuilder N) (w : World N)
      → Draws w.tables b
          (scored id (find (is_for ty id) w.tables.trust_scores))
          (add_trust_score ty id b w)
  unfolding add_trust_score get_trust_score_for_entity query attempt on_error pure ◌>>=◌
  score-Draws ty id b w =
      let o = find (is_for ty id) w.tables.trust_scores in
      (
        with_score id b (recover (wrap "get trust score for entity") (row o)),
        record w { calls = suc w.calls },
        simp healthy,
        refl,
        λ k. score_drawn k id o b,
      )

  pub around-Draws :
      (ty id : String) (batch_id : Option String) (b : GraphBuilder N) (w : World N)
      → Draws w.tables b (expected_edges w.tables ty id batch_id) (add_around ty id batch_id b w)
  unfolding ◌>>=◌
  around-Draws ty id batch_id b w =
      let t = w.tables in
      let raised : GraphBuilder N → Exec N (GraphBuilder N) =
        λ d. add_exceptions_for_entity ty id d >>= add_trust_score ty id in
      Draws-then t b _ _ _ (λ c. add_recon_results_for_entity ty id c >>= raised)
        (upstream-Draws batch_id id b w)
        λ c v same.
          Draws-then t c _ _ (add_recon_results_for_entity ty id c v) raised
            (subst
              (λ u.
                Draws u c (map (result_edge id) (results_of u ty id))
                  (add_recon_results_for_entity ty id c v))
              same (results-Draws ty id c v))
            λ d u same'.
              Draws-then t d _ _ (add_exceptions_for_entity ty id d u) (add_trust_score ty id)
                (subst
                  (λ x.
                    Draws x d (map (exception_edge id) (exceptions_of x ty id))
                      (add_exceptions_for_entity ty id d u))
                  same' (exceptions-Draws ty id d u))
                λ e x same''.
                  subst
                    (λ y.
                      Draws y e (scored id (find (is_for ty id) y.trust_scores))
                        (add_trust_score ty id e x))
                    same'' (score-Draws ty id e x)
