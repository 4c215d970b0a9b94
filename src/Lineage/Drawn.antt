-- ===== src/Lineage/Drawn.antt =====
-- What `build` of internal/lineage/service.go makes of a builder: the order in which Go visits the two
-- maps is forgotten.
use mathlib.Core.List.{Permᴰ}
use mathlib.Core.List.Permᴰ
use trust_lot.Prelude.{
  ℕ, suc, ◌+◌, ◌≤◌, String, Bool, true, ◌||◌, List, [], ◌∷◌, ◌==◌, eq_iff, ltb, ◌≡◌, ◌⊎◌, inl, inr,
  refl, sym, ap, ◌∙◌, arith, All, insert_sorted, sort_by, Bool-cases, if◌then◌else◌,
}
use trust_lot.Prelude.Order.{before}
use trust_lot.Prelude.Sorting.{
  IsAscending, AllApart, All-perm, All-imp_on, All-sort_by, AllApart-perm, sort_by-perm,
  sort_by-IsAscending,
}
use trust_lot.Lineage.Graph.{
  LineageNode, LineageEdge, LineageGraph, node_type_order, GraphBuilder, MapOrder, IsMapOrder,
  edge_less, node_less, build,
}
use trust_lot.Lineage.Builder.{IsBuilt, IsClosed, has_id, joins}
use trust_lot.Lineage.Order.{edge_less_trans, node_less_trans, node_map-AllApart, edge_set-AllApart}

module _ {N : Type 0} where
  has_id-insert_sorted :
      (k : String) (less : LineageNode N → LineageNode N → Bool) (n : LineageNode N)
      (ns : List (LineageNode N))
      → has_id k (insert_sorted less n ns) ≡ (n.id == k || has_id k ns)
  unfolding insert_sorted
  has_id-insert_sorted k less n [] = refl
  has_id-insert_sorted k less n (m ∷ ns) = ground (arith, has_id-insert_sorted k less n ns)

  has_id-sort_by :
      (k : String) (less : LineageNode N → LineageNode N → Bool) (ns : List (LineageNode N))
      → has_id k (sort_by less ns) ≡ has_id k ns
  unfolding sort_by
  has_id-sort_by k less [] = refl
  has_id-sort_by k less (n ∷ ns) =
      has_id-insert_sorted k less n (sort_by less ns)
      ∙ ap (λ x. n.id == k || x) (has_id-sort_by k less ns)

  has_id-perm :
      (k : String) (ms ns : List (LineageNode N)) → Permᴰ ms ns → has_id k ms ≡ has_id k ns
  has_id-perm k _ _ Permᴰ.nil = refl
  has_id-perm k _ _ (Permᴰ.cons {l₁ = l} {l₂ = m} e d) = λ i. (e i).id == k || has_id-perm k l m d i
  has_id-perm k _ _ (Permᴰ.swap {a = a} {b = b} {a' = c} {b' = d} {l = l} e g) =
      ground (arith, ap (λ (n : LineageNode N). n.id) e, ap (λ (n : LineageNode N). n.id) g)
  has_id-perm k _ _ (Permᴰ.trans {l₁ = l} {l₂ = m} {l₃ = n} d g) =
      has_id-perm k l m d ∙ has_id-perm k m n g

-- Each edge joins two nodes of the graph.
abbrev pub IsClosedGraph : {N : Type 0} → LineageGraph N → Type 0
IsClosedGraph g = All (λ e. joins e g.nodes ≡ true) g.edges

-- Each is related to all that come after it.
abbrev IsOrdered : {A : Type 0} → (A → A → Type 0) → List A → Type 0
IsOrdered R [] = Unit
IsOrdered R (x ∷ xs) = All (λ y. R x y) xs × IsOrdered R xs

-- The place of a text in a list, the list's length if it is not there.
abbrev place : String → List String → ℕ
place t [] = 0
place t (x ∷ xs) = if t == x then 0 else suc (place t xs)

-- The types of nodes from upstream to downstream.
abbrev stages : List String
stages =
    "ingestion_batch" ∷ "raw_record" ∷ "position" ∷ "transaction" ∷ "recon_result" ∷ "exception"
    ∷ "trust_score" ∷ []

-- A node of an earlier type comes before one of a later type, and of two of one type the one with the
-- smaller id.
abbrev IsNodeBefore : {N : Type 0} → LineageNode N → LineageNode N → Type 0
IsNodeBefore m n =
    (place m.type stages + 1 ≤ place n.type stages)
    ⊎ ((m.type ≡ n.type) × (before m.id n.id ≡ true))

-- The edge from the smaller id comes first, then the one to the smaller id, then the one of the smaller
-- type.
abbrev IsEdgeBefore : LineageEdge → LineageEdge → Type 0
IsEdgeBefore d e =
    (before d.from_id e.from_id ≡ true)
    ⊎ ((d.from_id ≡ e.from_id) × (before d.to_id e.to_id ≡ true))
    ⊎ ((d.from_id ≡ e.from_id) × (d.to_id ≡ e.to_id) × (before d.edge_type e.edge_type ≡ true))

-- Nodes by type and id, edges by their fields; none comes twice.
abbrev pub IsAscendingGraph : {N : Type 0} → LineageGraph N → Type 0
IsAscendingGraph g = IsOrdered IsNodeBefore g.nodes × IsOrdered IsEdgeBefore g.edges

All-imp :
    {A : Type 0} (P Q : A → Type 0) → ((x : A) → P x → Q x) → (xs : List A) → All P xs → All Q xs
All-imp P Q f [] h = tt
All-imp P Q f (x ∷ xs) h = (f x h.0, All-imp P Q f xs h.1)

ordered :
    {A : Type 0} (less : A → A → Bool) (R : A → A → Type 0)
    → ((x y : A) → less x y ≡ true → R x y)
    → (xs : List A) → IsAscending less xs
    → IsOrdered R xs
ordered less R f [] h = tt
ordered less R f (x ∷ xs) h = (All-imp _ _ (f x) xs h.0, ordered less R f xs h.1)

-- The number of a type is its place, or 99 for a type that has none.
abbrev IsRank : ℕ → ℕ → Type 0
IsRank number at = ((number ≡ at) × (at ≤ 6)) ⊎ ((number ≡ 99) × (at ≡ 7))

node_type_order-IsRank : (t : String) → IsRank (node_type_order t) (place t stages)
unfolding node_type_order
node_type_order-IsRank t = ground arith

by_rank : (a b m n : ℕ) → IsRank a m → IsRank b n → ltb a b ≡ true → m + 1 ≤ n
by_rank a b m n h k l = ground arith

types_before :
    (s t : String)
    → ltb (node_type_order s) (node_type_order t) ≡ true
    → place s stages + 1 ≤ place t stages
types_before s t =
    by_rank (node_type_order s) (node_type_order t) (place s stages) (place t stages)
      (node_type_order-IsRank s) (node_type_order-IsRank t)

node_less-IsNodeBefore :
    {N : Type 0} (m n : LineageNode N) → node_less m n ≡ true → IsNodeBefore m n
unfolding node_less
node_less-IsNodeBefore m n h = elim (Bool-cases (m.type == n.type)) [
  | inl e ↦ inr (ground (arith, eq_iff m.type n.type), ground arith)
  | inr e ↦ inl (types_before m.type n.type (ground arith))
]

edge_less-IsEdgeBefore : (d e : LineageEdge) → edge_less d e ≡ true → IsEdgeBefore d e
unfolding edge_less
edge_less-IsEdgeBefore d e h = ground (arith, eq_iff d.from_id e.from_id, eq_iff d.to_id e.to_id)

module _ {N : Type 0} (o : MapOrder N) (order : IsMapOrder o) (b : GraphBuilder N) where
  visit_nodes-has_id : (k : String) → has_id k (build ⦃o = o⦄ b).nodes ≡ has_id k b.node_map
  unfolding build
  visit_nodes-has_id k =
      has_id-sort_by k node_less (o.visit_nodes b.node_map)
      ∙ has_id-perm k _ _ (order.nodes_once b.node_map)

  nodes-AllApart : IsBuilt b → AllApart node_less (o.visit_nodes b.node_map)
  nodes-AllApart h =
      AllApart-perm node_less node_less_trans _ _ (Permᴰ.symm (order.nodes_once b.node_map))
        (node_map-AllApart b.node_map h.ids h.known)

  edges-AllApart : IsBuilt b → AllApart edge_less (o.visit_edges b.edge_set)
  edges-AllApart h =
      AllApart-perm edge_less edge_less_trans _ _ (Permᴰ.symm (order.edges_once b.edge_set))
        (edge_set-AllApart b.edge_set h.keys)

  pub build-IsClosed : IsClosed b → IsClosedGraph (build ⦃o = o⦄ b)
  unfolding build
  build-IsClosed h = All-sort_by _ edge_less (o.visit_edges b.edge_set) (
      All-perm _ _ _ (Permᴰ.symm (order.edges_once b.edge_set)) (
        All-imp_on _ _
          (λ e l. ground (arith, visit_nodes-has_id e.from_id, visit_nodes-has_id e.to_id))
          b.edge_set h))

  pub build-IsAscending : IsBuilt b → IsAscendingGraph (build ⦃o = o⦄ b)
  unfolding build
  build-IsAscending h = (
    ordered node_less _ node_less-IsNodeBefore _
        (sort_by-IsAscending node_less node_less_trans _ (nodes-AllApart h)),
    ordered edge_less _ edge_less-IsEdgeBefore _
        (sort_by-IsAscending edge_less edge_less_trans _ (edges-AllApart h)),
  )

  -- The graph is that of the builder's own lists.
  sorted_nodes : IsBuilt b → (build ⦃o = o⦄ b).nodes ≡ sort_by node_less b.node_map
  unfolding build
  sorted_nodes h =
      sort_by-perm node_less node_less_trans _ _ (order.nodes_once b.node_map) (nodes-AllApart h)

  sorted_edges : IsBuilt b → (build ⦃o = o⦄ b).edges ≡ sort_by edge_less b.edge_set
  unfolding build
  sorted_edges h =
      sort_by-perm edge_less edge_less_trans _ _ (order.edges_once b.edge_set) (edges-AllApart h)

pub build_order_irrelevant :
    {N : Type 0} (o p : MapOrder N)
    → IsMapOrder o
    → IsMapOrder p
    → (b : GraphBuilder N) → IsBuilt b
    → build ⦃o = o⦄ b ≡ build ⦃o = p⦄ b
unfolding build
build_order_irrelevant o p ho hp b h = λ i. record {
  root_type = b.root_type;
  root_id = b.root_id;
  nodes = (sorted_nodes o ho b h ∙ sym (sorted_nodes p hp b h)) i;
  edges = (sorted_edges o ho b h ∙ sym (sorted_edges p hp b h)) i;
}
