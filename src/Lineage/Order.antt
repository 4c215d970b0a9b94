-- ===== src/Lineage/Order.antt =====
-- The orders by which `build` of internal/lineage/service.go sorts nodes and edges.
use trust_lot.Prelude.{
  ℕ, String, true, false, not, ◌&&◌, ◌||◌, List, [], ◌∷◌, ◌==◌, eq_iff, eq_refl, ◌≡◌, sym, ap, ◌∙◌,
  arith, All, ltb, if◌then◌else◌,
}
use trust_lot.Prelude.Order.{before, before_trans, before_self, before_asymm, before_total}
use trust_lot.Prelude.Sorting.{apart, AllApart, All-imp_on, All-both}
use trust_lot.Lineage.Graph.{
  LineageNode, LineageEdge, edge_key, edge_less, node_less, node_type_order,
}
use trust_lot.Lineage.Builder.{Distinct, is_known}

pub edge_less_trans :
    (a b c : LineageEdge) → edge_less a b ≡ true → edge_less b c ≡ true → edge_less a c ≡ true
unfolding edge_less
edge_less_trans a b c h k = ground (
  arith,
  eq_iff a.from_id b.from_id,
  eq_iff b.from_id c.from_id,
  eq_iff a.from_id c.from_id,
  eq_iff a.to_id b.to_id,
  eq_iff b.to_id c.to_id,
  eq_iff a.to_id c.to_id,
  before_trans a.from_id b.from_id c.from_id,
  before_trans a.to_id b.to_id c.to_id,
  before_trans a.edge_type b.edge_type c.edge_type,
  before_asymm a.from_id b.from_id,
  before_asymm a.to_id b.to_id,
)

by_order_trans :
    (o : String → ℕ) (s t u i j k : String)
    → (if not (s == t) then ltb (o s) (o t) else before i j) ≡ true
    → (if not (t == u) then ltb (o t) (o u) else before j k) ≡ true
    → (if not (s == u) then ltb (o s) (o u) else before i k) ≡ true
by_order_trans o s t u i j k h l =
    ground (arith, eq_iff s t, eq_iff t u, eq_iff s u, before_trans i j k)

pub node_less_trans :
    {N : Type 0} (a b c : LineageNode N)
    → node_less a b ≡ true
    → node_less b c ≡ true
    → node_less a c ≡ true
unfolding node_less
node_less_trans a b c = by_order_trans node_type_order a.type b.type c.type a.id b.id c.id

before-apart : (s t : String) → (s == t) ≡ false → apart before s t ≡ true
before-apart s t h =
    ground (arith, eq_iff s t, before_asymm s t, before_asymm t s, before_total s t)

-- The type that has a number.
type_of : ℕ → String
type_of n =
    if ltb n 1
    then "ingestion_batch"
    else if ltb n 2
    then "raw_record"
    else if ltb n 3
    then "position"
    else if ltb n 4
    then "transaction"
    else if ltb n 5
    then "recon_result"
    else if ltb n 6
    then "exception"
    else "trust_score"

type_of-order : (s : String) → is_known s ≡ true → type_of (node_type_order s) ≡ s
unfolding type_of node_type_order
type_of-order s h = ground (
  arith,
  eq_iff s "ingestion_batch",
  eq_iff s "raw_record",
  eq_iff s "position",
  eq_iff s "transaction",
  eq_iff s "recon_result",
  eq_iff s "exception",
  eq_iff s "trust_score",
)

-- Types that have an order are told apart by it.
node_type_order-apart :
    (s t : String)
    → is_known s ≡ true
    → is_known t ≡ true
    → (s == t) ≡ false
    → apart ltb (node_type_order s) (node_type_order t) ≡ true
node_type_order-apart s t hs ht h =
    let back : node_type_order s ≡ node_type_order t → s ≡ t =
      λ e. sym (type_of-order s hs) ∙ ap type_of e ∙ type_of-order t ht in
    ground (arith, eq_iff s t, back)

by_order-apart :
    (o : String → ℕ) (s t i j : String)
    → ((s == t) ≡ false → apart ltb (o s) (o t) ≡ true)
    → apart before i j ≡ true
    → ((if not (s == t) then ltb (o s) (o t) else before i j)
          && not (if not (t == s) then ltb (o t) (o s) else before j i)
        || (if not (t == s) then ltb (o t) (o s) else before j i)
          && not (if not (s == t) then ltb (o s) (o t) else before i j))
      ≡ true
by_order-apart o s t i j h k = ground (arith, eq_iff s t, eq_iff t s, h)

node_less-apart :
    {N : Type 0} (a b : LineageNode N)
    → is_known a.type ≡ true
    → is_known b.type ≡ true
    → (a.id == b.id) ≡ false
    → apart node_less a b ≡ true
unfolding node_less
node_less-apart a b ha hb h =
    by_order-apart node_type_order a.type b.type a.id b.id
      (node_type_order-apart a.type b.type ha hb) (before-apart a.id b.id h)

edge_less-apart :
    (a b : LineageEdge) → (edge_key a == edge_key b) ≡ false → apart edge_less a b ≡ true
unfolding edge_less edge_key
edge_less-apart a b h = ground (
  arith,
  eq_iff a.from_id b.from_id,
  eq_iff b.from_id a.from_id,
  eq_iff a.to_id b.to_id,
  eq_iff b.to_id a.to_id,
  eq_iff a.edge_type b.edge_type,
  eq_refl (edge_key a),
  before_self a.edge_type,
  before_asymm a.from_id b.from_id,
  before_asymm b.from_id a.from_id,
  before_asymm a.to_id b.to_id,
  before_asymm b.to_id a.to_id,
  before_asymm a.edge_type b.edge_type,
  before_asymm b.edge_type a.edge_type,
  before_total a.from_id b.from_id,
  before_total a.to_id b.to_id,
  before_total a.edge_type b.edge_type,
)

pub node_map-AllApart :
    {N : Type 0} (ns : List (LineageNode N))
    → Distinct (λ (n : LineageNode N). n.id) ns
    → All (λ (n : LineageNode N). is_known n.type ≡ true) ns
    → AllApart node_less ns
node_map-AllApart [] h k = tt
node_map-AllApart (n ∷ ns) h k = (
  All-both (λ m. is_known m.type ≡ true) (λ m. (n.id == m.id) ≡ false)
      (λ m. apart node_less n m ≡ true) (λ m km e. node_less-apart n m k.0 km e) ns k.1 h.0,
  node_map-AllApart ns h.1 k.1,
)

pub edge_set-AllApart : (es : List LineageEdge) → Distinct edge_key es → AllApart edge_less es
edge_set-AllApart [] h = tt
edge_set-AllApart (e ∷ es) h =
    (All-imp_on _ _ (λ d k. edge_less-apart e d k) es h.0, edge_set-AllApart es h.1)
