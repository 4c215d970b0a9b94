-- ===== src/Lineage/Graphs.antt =====
-- The graphs that GetLineageForEntity and GetLineageForException of internal/lineage/service.go return.
use trust_lot.Prelude.{String, ◌⊎◌, inl, inr, ◌≡◌, ap, subst}
use trust_lot.Platform.{Float64, Env}
use trust_lot.Db.Exec.{Result, ok, err, World, Exec, proceed, pure, ◌>>=◌}
use trust_lot.Db.Returns.{Good, Returns, Returns-pure, Returns-bind_on, Returns-imp}
use trust_lot.Lineage.Graph.{LineageGraph, GraphBuilder, MapOrder, IsMapOrder, build}
use trust_lot.Lineage.Service.{
  entity_lineage, get_lineage_for_entity, exception_lineage, get_lineage_for_exception,
}
use trust_lot.Lineage.Builder.{IsBuilt}
use trust_lot.Lineage.Drawn.{
  IsClosedGraph, IsAscendingGraph, build-IsClosed, build-IsAscending, build_order_irrelevant,
}
use trust_lot.Lineage.Sound.{IsWhole, entity-Returns, exception-Returns}

-- What an action returns that succeeds.
by_result :
    {N A : Type 0} (Q : A → Type 0) (m : Exec N A)
    → Returns Q m
    → (w : World N) (a : A) → (m w).0 ≡ ok a
    → Q a
by_result Q m h w a e = subst (Good Q) e (h.at w)

module _ {N : Type 0} where
  -- Both orders draw one graph of each builder that the action returns.
  draw_order :
      (o p : MapOrder N) (r : Result (GraphBuilder N)) (w : World N)
      → IsMapOrder o
      → IsMapOrder p
      → Good IsBuilt r
      → proceed (r, w) (λ b. pure (build ⦃o = o⦄ b)) ≡ proceed (r, w) (λ b. pure (build ⦃o = p⦄ b))
  unfolding pure
  draw_order o p (ok b) w ho hp h = ap (λ g. (ok g, w)) (build_order_irrelevant o p ho hp b h)
  draw_order o p (err e) w ho hp h = λ i. (err e, w)

module _ {N : Type 0} ⦃f : Float64 N⦄ ⦃env : Env⦄ where
  -- A graph that GetLineageForEntity returns is closed: each edge joins two of its nodes, whichever
  -- calls of the database failed on the way, where Go visits each entry of a map once.
  pub get_lineage_for_entity-IsClosed :
      (o : MapOrder N)
      → IsMapOrder o
      → (entity_type entity_id : String) (w : World N) (g : LineageGraph N)
      → (get_lineage_for_entity ⦃o = o⦄ entity_type entity_id w).0 ≡ ok g
      → IsClosedGraph g
  unfolding get_lineage_for_entity
  get_lineage_for_entity-IsClosed o order entity_type entity_id w g =
      by_result IsClosedGraph _
        (Returns-bind_on IsWhole IsClosedGraph _ _ (entity-Returns entity_type entity_id)
          λ b h. Returns-pure _ _ (build-IsClosed o order b h.closed))
        w g

  -- In a graph that GetLineageForEntity or GetLineageForException returns, the nodes ascend strictly by
  -- their types, from batch, raw record, position, transaction, result and exception to score, then by
  -- id, and the edges by source, target and type, so none comes twice, whichever calls of the database
  -- failed on the way, where Go visits each entry of a map once.
  pub get_lineage-IsAscending :
      (o : MapOrder N)
      → IsMapOrder o
      → (entity_type id : String) (w : World N) (g : LineageGraph N)
      → ((get_lineage_for_entity ⦃o = o⦄ entity_type id w).0 ≡ ok g)
        ⊎ ((get_lineage_for_exception ⦃o = o⦄ id w).0 ≡ ok g)
      → IsAscendingGraph g
  unfolding get_lineage_for_entity get_lineage_for_exception
  get_lineage-IsAscending o order entity_type id w g (inl e) =
      by_result IsAscendingGraph _
        (Returns-bind_on IsWhole IsAscendingGraph _ _ (entity-Returns entity_type id)
          λ b h. Returns-pure _ _ (build-IsAscending o order b h.built))
        w g e
  get_lineage-IsAscending o order entity_type id w g (inr e) =
      by_result IsAscendingGraph _
        (Returns-bind_on IsBuilt IsAscendingGraph _ _ (exception-Returns id)
          λ b h. Returns-pure _ _ (build-IsAscending o order b h))
        w g e

  -- The answers of GetLineageForEntity and GetLineageForException, errors included, do not depend on
  -- the order in which Go visits the entries of its maps, where it visits each entry once.
  pub get_lineage_order_irrelevant :
      (o p : MapOrder N)
      → IsMapOrder o
      → IsMapOrder p
      → (entity_type entity_id exception_id : String) (w : World N)
      → (get_lineage_for_entity ⦃o = o⦄ entity_type entity_id w
          ≡ get_lineage_for_entity ⦃o = p⦄ entity_type entity_id w)
        × (get_lineage_for_exception ⦃o = o⦄ exception_id w
            ≡ get_lineage_for_exception ⦃o = p⦄ exception_id w)
  unfolding get_lineage_for_entity get_lineage_for_exception ◌>>=◌
  get_lineage_order_irrelevant o p ho hp entity_type entity_id exception_id w = (
    draw_order o p (entity_lineage entity_type entity_id w).0
        (entity_lineage entity_type entity_id w).1 ho hp
        ((Returns-imp IsWhole IsBuilt _ (λ b h. h.built) (entity-Returns entity_type entity_id)).at
          w),
    draw_order o p (exception_lineage exception_id w).0 (exception_lineage exception_id w).1 ho hp
        ((exception-Returns exception_id).at w),
  )
