-- ===== src/Lineage/Builder.antt =====
-- The invariants of the graph builder of internal/lineage/service.go.
use trust_lot.Prelude.{
  String, Bool, true, false, ◌&&◌, ◌||◌, List, [], ◌∷◌, ◌==◌, eq_iff, ◌≡◌, refl, arith, All, ltb,
  Bool-cases, inl, inr,
}
use trust_lot.Prelude.Sorting.{All-imp_on}
use trust_lot.Lineage.Graph.{
  LineageNode, LineageEdge, GraphBuilder, put, edge_key, node_type_order, add_node, add_edge,
}

-- No two elements have one key.
abbrev pub Distinct : {A : Type 0} → (A → String) → List A → Type 0
Distinct key [] = Unit
Distinct key (x ∷ xs) = All (λ y. (key x == key y) ≡ false) xs × Distinct key xs

module _ {A : Type 0} (key : A → String) where
  pub All-put : (P : A → Type 0) (x : A) (xs : List A) → P x → All P xs → All P (put key x xs)
  unfolding put
  All-put P x [] h k = (h, tt)
  All-put P x (y ∷ ys) h k = elim (Bool-cases (key y == key x)) [
    | inl e ↦ rw (e, put) (h, k.1)
    | inr e ↦ rw (e, put) (k.0, All-put P x ys h k.1)
  ]

  pub put-Distinct : (x : A) (xs : List A) → Distinct key xs → Distinct key (put key x xs)
  unfolding put
  put-Distinct x [] h = (tt, tt)
  put-Distinct x (y ∷ ys) h = elim (Bool-cases (key y == key x)) [
    | inl e ↦
        rw (e, put) (All-imp_on _ _ (λ z l. ground (arith, eq_iff (key y) (key x))) ys h.0, h.1)
    | inr e ↦
        rw (e, put) (All-put (λ z. (key y == key z) ≡ false) x ys e h.0, put-Distinct x ys h.1)
  ]

abbrev pub has_id : {N : Type 0} → String → List (LineageNode N) → Bool
has_id k [] = false
has_id k (n ∷ ns) = n.id == k || has_id k ns

abbrev pub is_known : String → Bool
is_known t = ltb (node_type_order t) 99

-- Both ends of the edge are nodes.
abbrev pub joins : {N : Type 0} → LineageEdge → List (LineageNode N) → Bool
joins e ns = has_id e.from_id ns && has_id e.to_id ns

-- One node for each id, one edge for each key, and only types that have an order.
pub record IsBuilt {N : Type 0} (b : GraphBuilder N) : Type 0 where
  pub ids : Distinct (λ (n : LineageNode N). n.id) b.node_map
  pub keys : Distinct edge_key b.edge_set
  pub known : All (λ (n : LineageNode N). is_known n.type ≡ true) b.node_map

abbrev pub IsClosed : {N : Type 0} → GraphBuilder N → Type 0
IsClosed b = All (λ e. joins e b.node_map ≡ true) b.edge_set

module _ {N : Type 0} where
  pub has_id-put :
      (k : String) (n : LineageNode N) (ns : List (LineageNode N))
      → has_id k (put (λ (m : LineageNode N). m.id) n ns) ≡ (n.id == k || has_id k ns)
  unfolding put
  has_id-put k n [] = refl
  has_id-put k n (m ∷ ns) = ground (arith, has_id-put k n ns, eq_iff m.id n.id)

  pub add_node-IsBuilt :
      (n : LineageNode N) (b : GraphBuilder N)
      → is_known n.type ≡ true
      → IsBuilt b
      → IsBuilt (add_node n b)
  unfolding add_node
  add_node-IsBuilt n b h k = record {
    ids = put-Distinct _ n b.node_map k.ids;
    keys = k.keys;
    known = All-put _ (λ (m : LineageNode N). is_known m.type ≡ true) n b.node_map h k.known;
  }

  pub add_edge-IsBuilt : (e : LineageEdge) (b : GraphBuilder N) → IsBuilt b → IsBuilt (add_edge e b)
  unfolding add_edge
  add_edge-IsBuilt e b k = record {
    ids = k.ids;
    keys = put-Distinct edge_key e b.edge_set k.keys;
    known = k.known;
  }

  -- A node stays where another one is added.
  pub add_node-has_id :
      (k : String) (n : LineageNode N) (b : GraphBuilder N)
      → has_id k b.node_map ≡ true
      → has_id k (add_node n b).node_map ≡ true
  unfolding add_node
  add_node-has_id k n b h = ground (arith, has_id-put k n b.node_map)

  pub add_node-has_self :
      (n : LineageNode N) (b : GraphBuilder N) → has_id n.id (add_node n b).node_map ≡ true
  unfolding add_node
  add_node-has_self n b = ground (arith, has_id-put n.id n b.node_map, eq_iff n.id n.id)

  pub add_node-IsClosed :
      (n : LineageNode N) (b : GraphBuilder N) → IsClosed b → IsClosed (add_node n b)
  unfolding add_node
  add_node-IsClosed n b h =
      All-imp_on _ _
        (λ e k. ground (arith, has_id-put e.from_id n b.node_map, has_id-put e.to_id n b.node_map))
        b.edge_set h

  pub add_edge-IsClosed :
      (e : LineageEdge) (b : GraphBuilder N)
      → has_id e.from_id b.node_map ≡ true
      → has_id e.to_id b.node_map ≡ true
      → IsClosed b
      → IsClosed (add_edge e b)
  unfolding add_edge
  add_edge-IsClosed e b hf ht h =
      All-put edge_key (λ d. joins d b.node_map ≡ true) e b.edge_set (ground arith) h
