-- ===== src/Lineage/Graph.antt =====
-- internal/lineage/service.go: the graph builder, and the types of lineage.go. Go visits the entries of
-- a map in an order of its own: what it makes of a list of entries is a parameter.
use mathlib.Core.List.{Permᴰ}
use trust_lot.Prelude.{
  ℕ, String, Bool, not, List, [], ◌∷◌, ◌==◌, ltb, concat, sort_by, if◌then◌else◌,
}
use trust_lot.Prelude.Order.{before}

-- A value of a node's metadata; a score is in hundredths (see Trust.Scorer).
pub data Value (N : Type 0) : Type 0 where
  text : String → Value N
  whole : ℕ → Value N
  number : N → Value N
  score : ℕ → Value N

pub record LineageNode (N : Type 0) : Type 0 where
  pub id : String
  pub type : String
  pub label : String
  pub metadata : List (String × Value N)

pub record LineageEdge : Type 0 where
  pub from_id : String
  pub to_id : String
  pub edge_type : String

pub record LineageGraph (N : Type 0) : Type 0 where
  pub root_type : String
  pub root_id : String
  pub nodes : List (LineageNode N)
  pub edges : List LineageEdge

-- The values of the two maps; their keys are `id` and `edge_key`.
pub record GraphBuilder (N : Type 0) : Type 0 where
  pub root_type : String
  pub root_id : String
  pub node_map : List (LineageNode N)
  pub edge_set : List LineageEdge

-- `m[key(x)] = x`
unfoldable pub put : {A : Type 0} → (A → String) → A → List A → List A
put key x [] = x ∷ []
put key x (y ∷ ys) = if key y == key x then x ∷ ys else y ∷ put key x ys

unfoldable pub edge_key : LineageEdge → String
edge_key e = concat (e.from_id ∷ "|" ∷ e.to_id ∷ "|" ∷ e.edge_type ∷ [])

unfoldable pub node_type_order : String → ℕ
node_type_order t =
    if t == "ingestion_batch"
    then 0
    else if t == "raw_record"
    then 1
    else if t == "position"
    then 2
    else if t == "transaction"
    then 3
    else if t == "recon_result"
    then 4
    else if t == "exception"
    then 5
    else if t == "trust_score"
    then 6
    else 99

unfoldable pub edge_less : LineageEdge → LineageEdge → Bool
edge_less d e =
    if not (d.from_id == e.from_id)
    then before d.from_id e.from_id
    else if not (d.to_id == e.to_id)
    then before d.to_id e.to_id
    else before d.edge_type e.edge_type

-- The orders in which the loops `for _, n := range b.nodeMap` and `for _, e := range b.edgeSet` visit
-- the entries.
pub record MapOrder (N : Type 0) : Type 0 where
  pub visit_nodes : List (LineageNode N) → List (LineageNode N)
  pub visit_edges : List LineageEdge → List LineageEdge

-- What Go says of these loops: each entry is visited once.
pub record IsMapOrder {N : Type 0} (o : MapOrder N) : Type 0 where
  pub nodes_once : (xs : List (LineageNode N)) → Permᴰ (o.visit_nodes xs) xs
  pub edges_once : (xs : List LineageEdge) → Permᴰ (o.visit_edges xs) xs

module _ {N : Type 0} where
  unfoldable pub node_less : LineageNode N → LineageNode N → Bool
  unfolding node_type_order
  node_less m n =
      if not (m.type == n.type)
      then ltb (node_type_order m.type) (node_type_order n.type)
      else before m.id n.id

  unfoldable pub new_builder : String → String → GraphBuilder N
  new_builder root_type root_id = record {
    root_type = root_type;
    root_id = root_id;
    node_map = [];
    edge_set = [];
  }

  unfoldable pub add_node : LineageNode N → GraphBuilder N → GraphBuilder N
  unfolding put
  add_node n b = record b { node_map = put (λ m. m.id) n b.node_map }

  unfoldable pub add_edge : LineageEdge → GraphBuilder N → GraphBuilder N
  unfolding put edge_key
  add_edge e b = record b { edge_set = put edge_key e b.edge_set }

  unfoldable pub build : ⦃o : MapOrder N⦄ → GraphBuilder N → LineageGraph N
  unfolding node_less edge_less
  build ⦃o⦄ b = record {
    root_type = b.root_type;
    root_id = b.root_id;
    nodes = sort_by node_less (o.visit_nodes b.node_map);
    edges = sort_by edge_less (o.visit_edges b.edge_set);
  }
