-- ===== src/Samples/Lineage.antt =====
-- The theorems on internal/lineage at concrete inputs.
use mathlib.Core.List.{Permᴰ}
use mathlib.Core.List.Permᴰ
use trust_lot.Prelude.{some, none, List, [], ◌∷◌, ◌++◌, sort_by, All, inl, refl, ◌≡◌}
use trust_lot.Prelude.Int.{ℤ}
use trust_lot.Db.Exec.{World, ok, pure, query, attempt, on_error, ◌>>=◌}
use trust_lot.Lineage.Graph.{LineageEdge, LineageGraph, MapOrder, IsMapOrder}
use trust_lot.Lineage.Service.{get_lineage_for_entity, get_lineage_for_exception}
use trust_lot.Db.Records.{get_position}
use trust_lot.Db.Recon.{of_row, list_recon_results_for_entity}
use trust_lot.Db.Exceptions.{list_exceptions_for_entity}
use trust_lot.Db.Scores.{get_trust_score_for_entity}
use trust_lot.Lineage.Nodes.{edge, recon_result_node, exception_node, position_node}
use trust_lot.Lineage.Drawn.{IsClosedGraph, IsAscendingGraph}
use trust_lot.Lineage.Exact.{has_edge, IsPlainEdge}
use trust_lot.Lineage.Expected.{expected_edges}
use trust_lot.Lineage.Complete.{get_lineage_for_entity-edges}
use trust_lot.Lineage.Raised.{exception_edges, get_lineage_for_exception-edges}
use trust_lot.Lineage.Graphs.{
  get_lineage_for_entity-IsClosed, get_lineage-IsAscending, get_lineage_order_irrelevant,
}
use trust_lot.Samples.Numbers.{cents}
use trust_lot.Samples.Data.{
  quiet, quiet-IsHealthy, ours, quantity_result, quantity_exception, database,
}

-- Go visits the entries in the order of the list.
instance abbrev pub in_order : MapOrder ℤ
in_order = record { visit_nodes = λ xs. xs; visit_edges = λ xs. xs }

pub in_order-IsMapOrder : IsMapOrder in_order
in_order-IsMapOrder = record { nodes_once = Permᴰ.refl; edges_once = Permᴰ.refl }

-- It visits the second entry before the first.
abbrev second_first : {A : Type 0} → List A → List A
second_first [] = []
second_first (x ∷ []) = x ∷ []
second_first (x ∷ y ∷ xs) = y ∷ x ∷ xs

second_first-perm : {A : Type 0} (xs : List A) → Permᴰ (second_first xs) xs
second_first-perm [] = Permᴰ.nil
second_first-perm (x ∷ []) = Permᴰ.refl (x ∷ [])
second_first-perm (x ∷ y ∷ xs) = Permᴰ.swap refl refl

abbrev out_of_order : MapOrder ℤ
out_of_order = record { visit_nodes = second_first; visit_edges = second_first }

out_of_order-IsMapOrder : IsMapOrder out_of_order
out_of_order-IsMapOrder = record { nodes_once = second_first-perm; edges_once = second_first-perm }

get_lineage_order_irrelevant_example :
    (get_lineage_for_entity ⦃o = in_order⦄ "position" "p-1" database
      ≡ get_lineage_for_entity ⦃o = out_of_order⦄ "position" "p-1" database)
    × (get_lineage_for_exception ⦃o = in_order⦄ "exc-1" database
        ≡ get_lineage_for_exception ⦃o = out_of_order⦄ "exc-1" database)
get_lineage_order_irrelevant_example =
    get_lineage_order_irrelevant in_order out_of_order in_order-IsMapOrder out_of_order-IsMapOrder
      "position" "p-1" "exc-1" database

-- The position, its result and its exception.
abbrev position_graph : LineageGraph ℤ
unfolding position_node recon_result_node exception_node
position_graph = record {
  root_type = "position";
  root_id = "p-1";
  nodes =
      position_node ours
      ∷ recon_result_node (of_row quantity_result)
      ∷ exception_node quantity_exception
      ∷ [];
  edges = edge "p-1" "exc-1" "raised_exception" ∷ edge "p-1" "res-1" "reconciled_as" ∷ [];
}

drawn : (get_lineage_for_entity "position" "p-1" database).0 ≡ ok position_graph
unfolding get_lineage_for_entity ◌>>=◌ on_error get_position query pure attempt of_row sort_by
    get_trust_score_for_entity list_exceptions_for_entity list_recon_results_for_entity
drawn = refl

get_lineage_for_entity-IsClosed_example : IsClosedGraph position_graph
get_lineage_for_entity-IsClosed_example =
    get_lineage_for_entity-IsClosed in_order in_order-IsMapOrder "position" "p-1" database
      position_graph drawn

get_lineage-IsAscending_example : IsAscendingGraph position_graph
get_lineage-IsAscending_example =
    get_lineage-IsAscending in_order in_order-IsMapOrder "position" "p-1" database position_graph
      (inl drawn)

-- The position p-1 with the batch that it came in.
abbrev with_batch : World ℤ
with_batch = record database {
  tables = record database.tables {
    positions = record ours { batch_id = some "batch-1" } ∷ [];
    raw_records =
        record {
          id = "raw-1";
          batch_id = "batch-1";
          seq_num = 0;
          raw_data = none;
          parsed_at = none;
          error = "";
        }
        ∷ [];
    ingestion_batches =
        record {
          id = "batch-1";
          custodian_id = "cust-1";
          status = "completed";
          file_ref = "positions.csv";
          record_count = 1;
          started_at = 0;
          completed_at = none;
          created_at = 0;
        }
        ∷ [];
  };
}

batch_plain : All IsPlainEdge (expected_edges with_batch.tables "position" "p-1" (some "batch-1"))
unfolding of_row
batch_plain =
    ((refl, refl, refl), ((refl, refl, refl), ((refl, refl, refl), ((refl, refl, refl), tt))))

exception_plain : All IsPlainEdge (
    expected_edges with_batch.tables "position" "p-1" (some "batch-1")
    ++ exception_edges with_batch.tables quantity_exception)
unfolding of_row
exception_plain = (
  (refl, refl, refl),
  (
    (refl, refl, refl),
    ((refl, refl, refl), ((refl, refl, refl), ((refl, refl, refl), ((refl, refl, refl), tt)))),
  ),
)

get_lineage_for_entity-edges_example :
    (g : LineageGraph ℤ) × ((get_lineage_for_entity "position" "p-1" with_batch).0 ≡ ok g)
    × ((e : LineageEdge)
        → has_edge e g.edges
          ≡ has_edge e (expected_edges with_batch.tables "position" "p-1" (some "batch-1")))
get_lineage_for_entity-edges_example =
    get_lineage_for_entity-edges quiet-IsHealthy with_batch "p-1" in_order in_order-IsMapOrder
      "position" (some "batch-1") refl batch_plain

get_lineage_for_exception-edges_example :
    (g : LineageGraph ℤ) × ((get_lineage_for_exception "exc-1" with_batch).0 ≡ ok g)
    × ((e : LineageEdge)
        → has_edge e g.edges
          ≡ has_edge e (
              expected_edges with_batch.tables "position" "p-1" (some "batch-1")
              ++ exception_edges with_batch.tables quantity_exception))
get_lineage_for_exception-edges_example =
    get_lineage_for_exception-edges quiet-IsHealthy in_order in_order-IsMapOrder with_batch "exc-1"
      quantity_exception (some "batch-1") refl refl exception_plain
