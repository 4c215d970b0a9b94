-- ===== src/Lineage/Located.antt =====
-- What internal/lineage/service.go draws of a position or transaction that the database holds.
use trust_lot.Prelude.{
  String, Option, none, some, ◌==◌, eq_iff, find, find_holds, ◌≡◌, refl, sym, subst, ◌∙◌, suc,
  arith, Bool-cases, inl, inr, if◌then◌else◌,
}
use mathlib.Core.Option.{some-injective}
use trust_lot.Platform.{Float64, Env, IsHealthy}
use trust_lot.Model.{Position, Transaction}
use trust_lot.Db.Tables.{Tables}
use trust_lot.Db.Exec.{Result, World, query, on_error, ◌>>=◌}
use trust_lot.Db.Records.{get_position, get_transaction}
use trust_lot.Lineage.Graph.{GraphBuilder, add_node}
use trust_lot.Lineage.Nodes.{position_node, transaction_node}
use trust_lot.Lineage.Service.{add_around, add_position_lineage, add_transaction_lineage}
use trust_lot.Lineage.Expected.{expected_edges}
use trust_lot.Lineage.Around.{around-Draws}
use trust_lot.Lineage.Expected.{Draws}

abbrev position_batch : {N : Type 0} → Option (Position N) → Option (Option String)
position_batch none = none
position_batch (some p) = some p.batch_id

abbrev transaction_batch : {N : Type 0} → Option (Transaction N) → Option (Option String)
transaction_batch none = none
transaction_batch (some t) = some t.batch_id

-- The batch of the record, which may have none; `none` if there is no such record.
abbrev pub batch_of : {N : Type 0} → Tables N → String → String → Option (Option String)
batch_of t entity_type id =
    if entity_type == "position"
    then position_batch (find (λ p. p.id == id) t.positions)
    else if entity_type == "transaction"
    then transaction_batch (find (λ x. x.id == id) t.transactions)
    else none

module _ {N : Type 0} ⦃f : Float64 N⦄ ⦃env : Env⦄ (healthy : IsHealthy env) (w : World N)
    (id : String) (b : GraphBuilder N) where
  position-Draws :
      (o : Option (Position N)) (batch_id : Option String)
      → find (λ p. p.id == id) w.tables.positions ≡ o
      → position_batch o ≡ some batch_id
      → Draws w.tables b
          (expected_edges w.tables "position" id batch_id)
          (add_position_lineage id b w)
  unfolding add_position_lineage get_position query on_error add_node ◌>>=◌
  position-Draws none batch_id e h = absurd (ground arith)
  position-Draws (some p) batch_id e h =
      let ids : p.id ≡ id = ground (arith, eq_iff p.id id, find_holds (λ x. x.id == id) _ p e) in
      let first = add_node (position_node p) b in
      let v : World N = record w { calls = suc w.calls } in
      let (c, u, done, same, drawn) = around-Draws healthy "position" id batch_id first v in
      (
        c,
        u,
        simp (healthy, e) (λ i. add_around "position" (ids i) (some-injective _ _ h i) first v)
            ∙ done,
        same,
        drawn,
      )

  transaction-Draws :
      (o : Option (Transaction N)) (batch_id : Option String)
      → find (λ x. x.id == id) w.tables.transactions ≡ o
      → transaction_batch o ≡ some batch_id
      → Draws w.tables b
          (expected_edges w.tables "transaction" id batch_id)
          (add_transaction_lineage id b w)
  unfolding add_transaction_lineage get_transaction query on_error add_node ◌>>=◌
  transaction-Draws none batch_id e h = absurd (ground arith)
  transaction-Draws (some t) batch_id e h =
      let ids : t.id ≡ id = ground (arith, eq_iff t.id id, find_holds (λ x. x.id == id) _ t e) in
      let first = add_node (transaction_node t) b in
      let v : World N = record w { calls = suc w.calls } in
      let (c, u, done, same, drawn) = around-Draws healthy "transaction" id batch_id first v in
      (
        c,
        u,
        simp (healthy, e) (λ i. add_around "transaction" (ids i) (some-injective _ _ h i) first v)
            ∙ done,
        same,
        drawn,
      )

  -- A step that is one of the two for a position or a transaction.
  pub entity-Draws :
      (step : String → Result (GraphBuilder N) × World N)
      → step "position" ≡ add_position_lineage id b w
      → step "transaction" ≡ add_transaction_lineage id b w
      → (ty : String) (batch_id : Option String) → batch_of w.tables ty id ≡ some batch_id
      → Draws w.tables b (expected_edges w.tables ty id batch_id) (step ty)
  entity-Draws step at_position at_transaction ty batch_id h =
      let t = w.tables in
      elim (Bool-cases (ty == "position")) [
        | inl e ↦
            subst (λ x. Draws t b (expected_edges t x id batch_id) (step x))
              (sym (ground (arith, eq_iff ty "position")))
              (subst (Draws t b (expected_edges t "position" id batch_id)) (sym at_position)
                (position-Draws _ batch_id refl (rw e at h)))
        | inr e ↦ elim (Bool-cases (ty == "transaction")) [
          | inl e' ↦
              subst (λ x. Draws t b (expected_edges t x id batch_id) (step x))
                (sym (ground (arith, eq_iff ty "transaction")))
                (subst (Draws t b (expected_edges t "transaction" id batch_id)) (sym at_transaction)
                  (transaction-Draws _ batch_id refl (rw (e, e') at h)))
          | inr e' ↦ absurd (ground arith)
        ]
      ]
