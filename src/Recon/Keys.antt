-- ===== src/Recon/Keys.antt =====
-- The keys by which internal/recon/engine.go pairs the records of the two sides.
use trust_lot.Prelude.{true, ◌∷◌, [], ◌≡◌, ◌↔◌, concat}
use trust_lot.Prelude.Bars.{barless, before_bar}
use trust_lot.Platform.{Env}
use trust_lot.Model.{Position, Transaction}
use trust_lot.Recon.Pairing.{position_key, transaction_key}

module _ {N : Type 0} where
  -- No id has a bar; a UUID, which the migrations ask for, has none.
  abbrev IsPlainPosition : Position N → Type 0
  IsPlainPosition p = barless p.account_id ≡ true

  abbrev IsPlainTransaction : Transaction N → Type 0
  IsPlainTransaction t =
      (barless t.account_id ≡ true) × (barless t.security_id ≡ true) × (barless t.txn_type ≡ true)

  position_key_parts :
      (p q : Position N)
      → IsPlainPosition p
      → IsPlainPosition q
      → position_key p ≡ position_key q
      → (p.account_id ≡ q.account_id) × (p.security_id ≡ q.security_id)
  unfolding position_key
  position_key_parts p q hp hq h = before_bar p.account_id q.account_id _ _ hp hq h

  transaction_key_parts :
      ⦃env : Env⦄ (s t : Transaction N)
      → IsPlainTransaction s
      → IsPlainTransaction t
      → transaction_key s ≡ transaction_key t
      → (s.account_id ≡ t.account_id)
        × (s.security_id ≡ t.security_id)
        × (s.txn_type ≡ t.txn_type)
        × (env.format_date s.trade_date ≡ env.format_date t.trade_date)
  unfolding transaction_key
  transaction_key_parts s t hs ht h =
      let (account, rest) = before_bar s.account_id t.account_id _ _ hs.0 ht.0 h in
      let (security, rest') = before_bar s.security_id t.security_id _ _ hs.1 ht.1 rest in
      let (kind, day) = before_bar s.txn_type t.txn_type _ _ hs.2 ht.2 rest' in
      (account, security, kind, day)

  -- Where no account, security or transaction type has a bar in it, two positions have the same key just
  -- where they are on the same account and security, and two transactions just where they are, besides,
  -- of the same type and their trade dates are printed alike.
  pub keys_iff :
      ⦃env : Env⦄ (p q : Position N) (s t : Transaction N)
      → IsPlainPosition p
      → IsPlainPosition q
      → IsPlainTransaction s
      → IsPlainTransaction t
      → ((position_key p ≡ position_key q)
          ↔ ((p.account_id ≡ q.account_id) × (p.security_id ≡ q.security_id)))
        × ((transaction_key s ≡ transaction_key t) ↔ (
            (s.account_id ≡ t.account_id)
            × (s.security_id ≡ t.security_id)
            × (s.txn_type ≡ t.txn_type)
            × (env.format_date s.trade_date ≡ env.format_date t.trade_date)))
  unfolding position_key transaction_key
  keys_iff p q s t hp hq hs ht = (
    (position_key_parts p q hp hq, λ h i. concat (h.0 i ∷ "|" ∷ h.1 i ∷ [])),
    (
      transaction_key_parts s t hs ht,
      λ h i. concat (h.0 i ∷ "|" ∷ h.1 i ∷ "|" ∷ h.2 i ∷ "|" ∷ h.3 i ∷ []),
    ),
  )
