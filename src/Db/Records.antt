-- ===== src/Db/Records.antt =====
-- internal/db/store.go: the queries on positions and transactions.
use trust_lot.Prelude.{String, Bool, ◌&&◌, List, ◌==◌, eqb, keep, find, sort_by, if◌then◌else◌}
use trust_lot.Prelude.Order.{before}
use trust_lot.Platform.{Time, Env}
use trust_lot.Model.{Position, Transaction}
use trust_lot.Db.Exec.{Exec, ok, query, row, with_context}

module _ {N : Type 0} where
  -- `ORDER BY account_id, security_id`
  unfoldable pub position_less : Position N → Position N → Bool
  position_less p q =
      if p.account_id == q.account_id
      then before p.security_id q.security_id
      else before p.account_id q.account_id

  -- `ORDER BY account_id, security_id, txn_type`
  unfoldable pub transaction_less : Transaction N → Transaction N → Bool
  transaction_less s t =
      if s.account_id == t.account_id
      then if s.security_id == t.security_id
        then before s.txn_type t.txn_type
        else before s.security_id t.security_id
      else before s.account_id t.account_id

module _ {N : Type 0} ⦃env : Env⦄ where
  unfoldable pub list_positions_by_source : String → Time → Exec N (List (Position N))
  unfolding sort_by position_less
  list_positions_by_source source as_of_date = with_context "list positions by source" (
      query λ t. ok (
        sort_by position_less
          (keep (λ p. p.source == source && eqb p.as_of_date as_of_date) t.positions)))

  unfoldable pub list_transactions_by_source : String → Time → Exec N (List (Transaction N))
  unfolding sort_by transaction_less
  list_transactions_by_source source trade_date = with_context "list transactions by source" (
      query λ t. ok (
        sort_by transaction_less
          (keep (λ x. x.source == source && eqb x.trade_date trade_date) t.transactions)))

  unfoldable pub get_position : String → Exec N (Position N)
  get_position id =
      with_context "get position" (query λ t. row (find (λ p. p.id == id) t.positions))

  unfoldable pub get_transaction : String → Exec N (Transaction N)
  get_transaction id =
      with_context "get transaction" (query λ t. row (find (λ x. x.id == id) t.transactions))

  unfoldable pub find_paired_position : String → String → Time → String → Exec N (Position N)
  find_paired_position account_id security_id as_of_date source =
      with_context "find paired position" (
        query λ t. row (
          find
            (λ p.
              p.account_id == account_id
              && p.security_id == security_id
              && eqb p.as_of_date as_of_date
              && p.source == source)
            t.positions))

  unfoldable pub find_paired_transaction :
      String → String → String → Time → String → Exec N (Transaction N)
  find_paired_transaction account_id security_id txn_type trade_date source =
      with_context "find paired transaction" (
        query λ t. row (
          find
            (λ x.
              x.account_id == account_id
              && x.security_id == security_id
              && x.txn_type == txn_type
              && eqb x.trade_date trade_date
              && x.source == source)
            t.transactions))
