-- ===== src/Lineage/Exact.antt =====
-- The edges of the builder of internal/lineage/service.go by their three fields, which the key of its map
-- tells apart where they have no bar.
use trust_lot.Prelude.{
  String, Bool, true, false, ◌&&◌, ◌||◌, List, [], ◌∷◌, ◌==◌, eq_iff, ◌≡◌, refl, sym, ap, ◌∙◌,
  arith, All, Bool-cases, inl, inr, concat,
}
use trust_lot.Prelude.Bars.{barless, joined-injective}
use trust_lot.Lineage.Graph.{LineageEdge, edge_key}
use trust_lot.Lineage.Keys.{has_key}

-- There is an edge with the three fields of this one.
abbrev pub has_edge : LineageEdge → List LineageEdge → Bool
has_edge e [] = false
has_edge e (d ∷ ds) =
    d.from_id == e.from_id && d.to_id == e.to_id && d.edge_type == e.edge_type || has_edge e ds

-- No bar is in the ids and the type; a UUID, which the migrations ask for, has none.
abbrev pub IsPlainEdge : LineageEdge → Type 0
IsPlainEdge e = (barless e.from_id ≡ true) × (barless e.to_id ≡ true) × (barless e.edge_type ≡ true)

plain_key :
    (d e : LineageEdge)
    → IsPlainEdge d
    → edge_key d ≡ edge_key e
    → (d.from_id ≡ e.from_id) × (d.to_id ≡ e.to_id) × (d.edge_type ≡ e.edge_type)
unfolding edge_key
plain_key d e h k =
    joined-injective d.from_id d.to_id d.edge_type e.from_id e.to_id e.edge_type h.0 h.1 h.2 k

key_of_fields :
    (d e : LineageEdge)
    → d.from_id ≡ e.from_id
    → d.to_id ≡ e.to_id
    → d.edge_type ≡ e.edge_type
    → edge_key d ≡ edge_key e
unfolding edge_key
key_of_fields d e h k l = λ i. concat (h i ∷ "|" ∷ k i ∷ "|" ∷ l i ∷ [])

-- An edge with the key of a plain one is that edge.
same_edge :
    (d e : LineageEdge)
    → IsPlainEdge e
    → (edge_key d == edge_key e)
      ≡ (d.from_id == e.from_id && d.to_id == e.to_id && d.edge_type == e.edge_type)
same_edge d e h =
    let same_fields : edge_key d ≡ edge_key e
        → (e.from_id ≡ d.from_id) × (e.to_id ≡ d.to_id) × (e.edge_type ≡ d.edge_type) =
      λ k. plain_key e d h (sym k) in
    ground (
      arith,
      eq_iff (edge_key d) (edge_key e),
      eq_iff d.from_id e.from_id,
      eq_iff d.to_id e.to_id,
      eq_iff d.edge_type e.edge_type,
      key_of_fields d e,
      same_fields,
    )

has_edge-has_key :
    (e : LineageEdge) (ds : List LineageEdge)
    → IsPlainEdge e
    → has_edge e ds ≡ has_key (edge_key e) ds
has_edge-has_key e [] h = refl
has_edge-has_key e (d ∷ ds) h = rw (same_edge d e h, has_edge-has_key e ds h) refl

keyed :
    (e : LineageEdge) (ds : List LineageEdge)
    → has_edge e ds ≡ true
    → has_key (edge_key e) ds ≡ true
keyed e [] h = h
keyed e (d ∷ ds) h = ground (
  arith,
  eq_iff (edge_key d) (edge_key e),
  eq_iff d.from_id e.from_id,
  eq_iff d.to_id e.to_id,
  eq_iff d.edge_type e.edge_type,
  key_of_fields d e,
  keyed e ds,
)

plain_by_key :
    (e : LineageEdge) (ds : List LineageEdge)
    → All IsPlainEdge ds
    → has_key (edge_key e) ds ≡ true
    → IsPlainEdge e
plain_by_key e [] plain h = absurd (ground arith)
plain_by_key e (d ∷ ds) plain h = elim (Bool-cases (edge_key d == edge_key e)) [
  | inl k ↦
      let (from, to, type) =
        plain_key d e plain.0 (ground (arith, eq_iff (edge_key d) (edge_key e))) in
      let (p, q, r) = plain.0 in
      (ap barless (sym from) ∙ p, ap barless (sym to) ∙ q, ap barless (sym type) ∙ r)
  | inr k ↦ plain_by_key e ds plain.1 (ground arith)
]

-- Two lists with the same keys have the same edges, if those of the one are plain.
pub same_edges :
    (ds es : List LineageEdge)
    → ((k : String) → has_key k ds ≡ has_key k es)
    → All IsPlainEdge es
    → (e : LineageEdge) → has_edge e ds ≡ has_edge e es
same_edges ds es same plain e = elim (Bool-cases (has_key (edge_key e) es)) [
  | inl k ↦
      let h = plain_by_key e es plain k in
      has_edge-has_key e ds h ∙ same (edge_key e) ∙ sym (has_edge-has_key e es h)
  | inr k ↦ ground (arith, keyed e ds, keyed e es, same (edge_key e))
]
