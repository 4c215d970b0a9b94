-- ===== src/Recon/Pairing.antt =====
-- internal/recon/engine.go: the pairing keys, the sort orders, and the map of the custodian's records.
use trust_lot.Prelude.{String, Bool, not, List, [], ◌∷◌, ◌==◌, ltb, concat, insert, if◌then◌else◌}
use trust_lot.Platform.{Env}
use trust_lot.Model.{Position, Transaction}
use trust_lot.Prelude.Order.{before}

module _ {N : Type 0} where
  unfoldable pub position_key : Position N → String
  position_key p = concat (p.account_id ∷ "|" ∷ p.security_id ∷ [])

  -- sortPositions
  unfoldable pub sorts_before : Position N → Position N → Bool
  sorts_before p q =
      if not (p.account_id == q.account_id)
      then before p.account_id q.account_id
      else before p.security_id q.security_id

  -- sortTransactions
  unfoldable pub transaction_sorts_before : Transaction N → Transaction N → Bool
  transaction_sorts_before s t =
      if not (s.account_id == t.account_id)
      then before s.account_id t.account_id
      else if not (s.security_id == t.security_id)
      then before s.security_id t.security_id
      else if not (s.txn_type == t.txn_type)
      then before s.txn_type t.txn_type
      else ltb s.trade_date t.trade_date

module _ {N : Type 0} ⦃env : Env⦄ where
  unfoldable pub transaction_key : Transaction N → String
  transaction_key t = concat (
      t.account_id
      ∷ "|"
      ∷ t.security_id
      ∷ "|"
      ∷ t.txn_type
      ∷ "|"
      ∷ env.format_date t.trade_date
      ∷ [])

-- `custodianMap[key(p)] = p` for each record: a later record replaces an earlier one of its key.
unfoldable pub build_map :
    {A : Type 0} → (A → String) → List (String × A) → List A → List (String × A)
build_map key m [] = m
build_map key m (x ∷ xs) = build_map key (insert (key x) x m) xs
