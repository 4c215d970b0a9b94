-- ===== src/Recon/Unordered.antt =====
-- A run of internal/recon/engine.go does not depend on the order of the rows.
use mathlib.Core.List.{Permᴰ}
use trust_lot.Prelude.{
  String, ◌++◌, Bool, true, false, ◌&&◌, ◌==◌, eqb, eq_iff, sort_by, map, find, some, ◌≡◌, sym, ap,
  ◌∙◌, arith, if◌then◌else◌,
}
use trust_lot.Prelude.Order.{before_trans, before_asymm, before_total}
use trust_lot.Prelude.Sorting.{apart, sort_by-perm}
use trust_lot.Prelude.Kept.{AllUnlike, keep-AllApart, keep-perm}
use trust_lot.Platform.{Time, Float64, Env, IsHealthy}
use trust_lot.Model.{Position, Transaction, ReconRun}
use trust_lot.Db.Tables.{Tables, ReconConfig}
use trust_lot.Db.Records.{position_less, transaction_less}
use trust_lot.Db.Exec.{World}
use trust_lot.Recon.Pairing.{sorts_before, transaction_sorts_before}
use trust_lot.Recon.Engine.{position_kind, transaction_kind, run}
use trust_lot.Recon.Outcomes.{outcomes}
use trust_lot.Recon.Recorded.{reported, raised, report_of, raises_of}
use trust_lot.Recon.Complete.{
  loaded_positions, loaded_transactions, run_outcomes, run-completes, IsSupported,
}

module _ {N : Type 0} where
  -- Two positions of one source and day on one account and security.
  abbrev pub same_position : Position N → Position N → Bool
  same_position p q =
      p.source == q.source
      && eqb p.as_of_date q.as_of_date
      && p.account_id == q.account_id
      && p.security_id == q.security_id

  abbrev pub same_transaction : Transaction N → Transaction N → Bool
  same_transaction s t =
      s.source == t.source
      && eqb s.trade_date t.trade_date
      && s.account_id == t.account_id
      && s.security_id == t.security_id
      && s.txn_type == t.txn_type

  position_less_trans :
      (a b c : Position N)
      → position_less a b ≡ true
      → position_less b c ≡ true
      → position_less a c ≡ true
  unfolding position_less
  position_less_trans a b c h k = ground (
    arith,
    eq_iff a.account_id b.account_id,
    eq_iff b.account_id c.account_id,
    eq_iff a.account_id c.account_id,
    before_trans a.account_id b.account_id c.account_id,
    before_trans a.security_id b.security_id c.security_id,
    before_asymm a.account_id b.account_id,
  )

  transaction_less_trans :
      (a b c : Transaction N)
      → transaction_less a b ≡ true
      → transaction_less b c ≡ true
      → transaction_less a c ≡ true
  unfolding transaction_less
  transaction_less_trans a b c h k = ground (
    arith,
    eq_iff a.account_id b.account_id,
    eq_iff b.account_id c.account_id,
    eq_iff a.account_id c.account_id,
    eq_iff a.security_id b.security_id,
    eq_iff b.security_id c.security_id,
    eq_iff a.security_id c.security_id,
    before_trans a.account_id b.account_id c.account_id,
    before_trans a.security_id b.security_id c.security_id,
    before_trans a.txn_type b.txn_type c.txn_type,
    before_asymm a.account_id b.account_id,
    before_asymm a.security_id b.security_id,
  )

  position_less-apart :
      (source : String) (day : Time) (p q : Position N)
      → (p.source == source && eqb p.as_of_date day) ≡ true
      → (q.source == source && eqb q.as_of_date day) ≡ true
      → same_position p q ≡ false
      → apart position_less p q ≡ true
  unfolding position_less
  position_less-apart source day p q hp hq h = ground (
    arith,
    eq_iff p.source source,
    eq_iff q.source source,
    eq_iff p.source q.source,
    eq_iff p.account_id q.account_id,
    eq_iff q.account_id p.account_id,
    eq_iff p.security_id q.security_id,
    before_asymm p.account_id q.account_id,
    before_asymm q.account_id p.account_id,
    before_asymm p.security_id q.security_id,
    before_asymm q.security_id p.security_id,
    before_total p.account_id q.account_id,
    before_total p.security_id q.security_id,
  )

  transaction_less-apart :
      (source : String) (day : Time) (s t : Transaction N)
      → (s.source == source && eqb s.trade_date day) ≡ true
      → (t.source == source && eqb t.trade_date day) ≡ true
      → same_transaction s t ≡ false
      → apart transaction_less s t ≡ true
  unfolding transaction_less
  transaction_less-apart source day s t hs ht h = ground (
    arith,
    eq_iff s.source source,
    eq_iff t.source source,
    eq_iff s.source t.source,
    eq_iff s.account_id t.account_id,
    eq_iff t.account_id s.account_id,
    eq_iff s.security_id t.security_id,
    eq_iff t.security_id s.security_id,
    eq_iff s.txn_type t.txn_type,
    before_asymm s.account_id t.account_id,
    before_asymm t.account_id s.account_id,
    before_asymm s.security_id t.security_id,
    before_asymm t.security_id s.security_id,
    before_asymm s.txn_type t.txn_type,
    before_asymm t.txn_type s.txn_type,
    before_total s.account_id t.account_id,
    before_total s.security_id t.security_id,
    before_total s.txn_type t.txn_type,
  )

-- The same rows in another order, each told apart from the others by the fields that pair it.
pub record IsReordered {N : Type 0} (s t : Tables N) : Type 0 where
  pub positions : Permᴰ s.positions t.positions
  pub transactions : Permᴰ s.transactions t.transactions
  pub positions_unlike : AllUnlike same_position s.positions
  pub transactions_unlike : AllUnlike same_transaction s.transactions
  pub recon_runs : s.recon_runs ≡ t.recon_runs
  pub recon_results : s.recon_results ≡ t.recon_results
  pub exceptions : s.exceptions ≡ t.exceptions

module _ {N : Type 0} ⦃f : Float64 N⦄ ⦃env : Env⦄ (s t : Tables N) (h : IsReordered s t) where
  same_positions :
      (source : String) (day : Time) → loaded_positions source day s ≡ loaded_positions source day t
  unfolding loaded_positions
  same_positions source day = ap (sort_by sorts_before) (
      sort_by-perm position_less position_less_trans _ _ (keep-perm _ _ _ h.positions) (
        keep-AllApart _ position_less same_position (position_less-apart source day) s.positions
          h.positions_unlike))

  same_transactions :
      (source : String) (day : Time)
      → loaded_transactions source day s ≡ loaded_transactions source day t
  unfolding loaded_transactions
  same_transactions source day = ap (sort_by transaction_sorts_before) (
      sort_by-perm transaction_less transaction_less_trans _ _ (keep-perm _ _ _ h.transactions) (
        keep-AllApart _ transaction_less same_transaction (transaction_less-apart source day)
          s.transactions h.transactions_unlike))

  same_outcomes :
      (config : ReconConfig N) (r : ReconRun) → run_outcomes config r s ≡ run_outcomes config r t
  unfolding run_outcomes
  same_outcomes config r =
      let day = r.as_of_date in
      λ i.
        if r.entity_type == "position"
        then outcomes position_kind config (same_positions "internal" day i)
            (same_positions "custodian" day i)
        else outcomes transaction_kind config (same_transactions "internal" day i)
            (same_transactions "custodian" day i)

module _ {N : Type 0} ⦃f : Float64 N⦄ ⦃env : Env⦄ where
  -- What a run reports does not depend on the order of the rows of positions and transactions. Where
  -- the database serves every call, the run is found, its entity type is position or transaction, and
  -- no two positions of one source and day are on one account and security, nor two transactions of
  -- one type, then two databases that differ in this order alone get the same results and exceptions,
  -- in the same order, but for ids and times.
  pub run_order_irrelevant :
      IsHealthy env
      → (config : ReconConfig N) (id : String) (v w : World N) (r : ReconRun)
      → IsReordered v.tables w.tables
      → find (λ x. x.id == id) v.tables.recon_runs ≡ some r
      → IsSupported r.entity_type
      → let s = (run config id v).1.tables in
        let t = (run config id w).1.tables in
        ((run config id v).0 ≡ (run config id w).0)
        × (map reported s.recon_results ≡ map reported t.recon_results)
        × (map raised s.exceptions ≡ map raised t.exceptions)
  run_order_irrelevant healthy config id v w r h found supported =
      let one = run-completes healthy config id v r found supported in
      let two =
        run-completes healthy config id w r (sym (ap (find (λ x. x.id == id)) h.recon_runs) ∙ found)
          supported in
      let same = same_outcomes v.tables w.tables h config r in
      (
        one.0 ∙ sym two.0,
        one.1
            ∙ (λ i. map reported (h.recon_results i) ++ map (report_of r r.entity_type) (same i))
            ∙ sym two.1,
        one.2
            ∙ (λ i. map raised (h.exceptions i) ++ raises_of r r.entity_type (same i))
            ∙ sym two.2,
      )
