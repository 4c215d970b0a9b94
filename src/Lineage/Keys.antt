-- ===== src/Lineage/Keys.antt =====
-- The edges that the loops of internal/lineage/service.go add, by their keys.
use mathlib.Core.List.{Permᴰ, reverse, reverse_aux}
use trust_lot.Prelude.{
  String, Bool, false, ◌||◌, List, [], ◌∷◌, ◌++◌, map, ◌==◌, eq_iff, sort_by, insert_sorted, ◌≡◌,
  refl, ap, ◌∙◌, arith,
}
use trust_lot.Platform.{Env}
use trust_lot.Model.{RawRecord, ReconResult, Exception}
use trust_lot.Lineage.Graph.{LineageEdge, GraphBuilder, put, edge_key, add_node, add_edge}
use trust_lot.Lineage.Nodes.{edge, recon_result_node, exception_node, raw_record_node}
use trust_lot.Lineage.Links.{link_results, link_exceptions, link_batch, link_raw_records}

abbrev pub has_key : String → List LineageEdge → Bool
has_key k [] = false
has_key k (e ∷ es) = edge_key e == k || has_key k es

pub has_key-put :
    (k : String) (e : LineageEdge) (es : List LineageEdge)
    → has_key k (put edge_key e es) ≡ (edge_key e == k || has_key k es)
unfolding put
has_key-put k e [] = refl
has_key-put k e (d ∷ es) = ground (arith, has_key-put k e es, eq_iff (edge_key d) (edge_key e))

has_key-insert_sorted :
    (k : String) (less : LineageEdge → LineageEdge → Bool) (e : LineageEdge) (es : List LineageEdge)
    → has_key k (insert_sorted less e es) ≡ (edge_key e == k || has_key k es)
unfolding insert_sorted
has_key-insert_sorted k less e [] = refl
has_key-insert_sorted k less e (d ∷ es) = ground (arith, has_key-insert_sorted k less e es)

pub has_key-sort_by :
    (k : String) (less : LineageEdge → LineageEdge → Bool) (es : List LineageEdge)
    → has_key k (sort_by less es) ≡ has_key k es
unfolding sort_by
has_key-sort_by k less [] = refl
has_key-sort_by k less (e ∷ es) =
    has_key-insert_sorted k less e (sort_by less es)
    ∙ ap (λ x. edge_key e == k || x) (has_key-sort_by k less es)

pub has_key-perm :
    (k : String) (ds es : List LineageEdge) → Permᴰ ds es → has_key k ds ≡ has_key k es
has_key-perm k _ _ Permᴰ.nil = refl
has_key-perm k _ _ (Permᴰ.cons {l₁ = l} {l₂ = m} e d) =
    λ i. edge_key (e i) == k || has_key-perm k l m d i
has_key-perm k _ _ (Permᴰ.swap {a = a} {b = b} {a' = c} {b' = d} {l = l} e g) =
    ground (arith, ap edge_key e, ap edge_key g)
has_key-perm k _ _ (Permᴰ.trans {l₁ = l} {l₂ = m} {l₃ = n} d g) =
    has_key-perm k l m d ∙ has_key-perm k m n g

pub has_key-append :
    (k : String) (ds es : List LineageEdge) → has_key k (ds ++ es) ≡ (has_key k ds || has_key k es)
has_key-append k [] es = refl
has_key-append k (d ∷ ds) es = ground (arith, has_key-append k ds es)

-- The edges to the rows of a list do not depend on the order of the rows.
module _ {A : Type 0} (k : String) (draw : A → LineageEdge) where
  inserted-has_key :
      (less : A → A → Bool) (x : A) (xs : List A)
      → has_key k (map draw (insert_sorted less x xs))
        ≡ (edge_key (draw x) == k || has_key k (map draw xs))
  unfolding insert_sorted
  inserted-has_key less x [] = refl
  inserted-has_key less x (y ∷ ys) = ground (arith, inserted-has_key less x ys)

  pub sorted-has_key :
      (less : A → A → Bool) (xs : List A)
      → has_key k (map draw (sort_by less xs)) ≡ has_key k (map draw xs)
  unfolding sort_by
  sorted-has_key less [] = refl
  sorted-has_key less (x ∷ xs) =
      inserted-has_key less x (sort_by less xs)
      ∙ ap (λ b. edge_key (draw x) == k || b) (sorted-has_key less xs)

  reversed_onto :
      (xs ys : List A)
      → has_key k (map draw (reverse_aux xs ys))
        ≡ (has_key k (map draw xs) || has_key k (map draw ys))
  reversed_onto [] ys = refl
  reversed_onto (x ∷ xs) ys = ground (arith, reversed_onto xs (x ∷ ys))

  pub reversed-has_key : (xs : List A) → has_key k (map draw (reverse xs)) ≡ has_key k (map draw xs)
  reversed-has_key xs = ground (arith, reversed_onto xs [])

-- The edges that the loops draw.
abbrev pub result_edge : String → ReconResult → LineageEdge
result_edge id r = edge id r.id "reconciled_as"

abbrev pub exception_edge : String → Exception → LineageEdge
exception_edge id e = edge id e.id "raised_exception"

abbrev pub raw_edge : String → RawRecord → LineageEdge
raw_edge id r = edge r.id id "normalized_to"

abbrev pub batch_edge : String → RawRecord → LineageEdge
batch_edge id r = edge id r.id "contains"

module _ {N : Type 0} (k id : String) where
  pub link_results-has_key :
      (rs : List ReconResult) (b : GraphBuilder N)
      → has_key k (link_results id rs b).edge_set
        ≡ (has_key k (map (result_edge id) rs) || has_key k b.edge_set)
  unfolding link_results add_edge add_node
  link_results-has_key [] b = refl
  link_results-has_key (r ∷ rs) b = ground (
    arith,
    link_results-has_key rs (add_edge (result_edge id r) (add_node (recon_result_node r) b)),
    has_key-put k (result_edge id r) b.edge_set,
  )

  pub link_exceptions-has_key :
      (es : List Exception) (b : GraphBuilder N)
      → has_key k (link_exceptions id es b).edge_set
        ≡ (has_key k (map (exception_edge id) es) || has_key k b.edge_set)
  unfolding link_exceptions add_edge add_node
  link_exceptions-has_key [] b = refl
  link_exceptions-has_key (e ∷ es) b = ground (
    arith,
    link_exceptions-has_key es (add_edge (exception_edge id e) (add_node (exception_node e) b)),
    has_key-put k (exception_edge id e) b.edge_set,
  )

  pub link_batch-has_key :
      (rs : List RawRecord) (b : GraphBuilder N)
      → has_key k (link_batch id rs b).edge_set
        ≡ (has_key k (map (batch_edge id) rs) || has_key k b.edge_set)
  unfolding link_batch add_edge
  link_batch-has_key [] b = refl
  link_batch-has_key (r ∷ rs) b = ground (
    arith,
    link_batch-has_key rs (add_edge (batch_edge id r) b),
    has_key-put k (batch_edge id r) b.edge_set,
  )

  pub link_raw_records-has_key :
      ⦃env : Env⦄ (rs : List RawRecord) (b : GraphBuilder N)
      → has_key k (link_raw_records id rs b).edge_set
        ≡ (has_key k (map (raw_edge id) rs) || has_key k b.edge_set)
  unfolding link_raw_records add_edge add_node
  link_raw_records-has_key [] b = refl
  link_raw_records-has_key (r ∷ rs) b = ground (
    arith,
    link_raw_records-has_key rs (add_edge (raw_edge id r) (add_node (raw_record_node r) b)),
    has_key-put k (raw_edge id r) b.edge_set,
  )
