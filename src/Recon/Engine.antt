-- ===== src/Recon/Engine.antt =====
-- internal/recon/engine.go: reconcilePositions, reconcileTransactions and Run. The two reconcile
-- methods have the same two loops, over another type of record; the loops stand here once.
use trust_lot.Prelude.{
  ℕ, suc, String, true, false, none, some, List, [], ◌∷◌, ◌==◌, concat, lookup, contains, sort_by,
  if◌then◌else◌,
}
use trust_lot.Platform.{Time, Float64, Env}
use trust_lot.Model.{Position, Transaction, ReconRun}
use trust_lot.Model.ReasonCode.{status_break, map_account_unmapped}
use trust_lot.Db.Tables.{ReconConfig}
use trust_lot.Db.Exec.{
  message, Result, ok, err, Exec, pure, raise, with_context, attempt, time_now, ◌>>=◌, ◌>>◌,
}
use trust_lot.Db.Records.{list_positions_by_source, list_transactions_by_source}
use trust_lot.Db.Recon.{get_recon_run, update_recon_run_status}
use trust_lot.Recon.Rules.{Rule, Verdict, apply_rules, position_rules, transaction_rules}
use trust_lot.Recon.Pairing.{
  position_key, transaction_key, sorts_before, transaction_sorts_before, build_map,
}
use trust_lot.Recon.Persist.{persist_result, persist_break}

-- What the two reconcile methods differ in: the entity type, the id and the pairing key of a record,
-- the rules, and the details of an unmatched record.
pub record Kind (N A : Type 0) : Type 0 where
  pub entity_type : String
  pub id : A → String
  pub key : A → String
  pub rules : List (Rule N A)
  pub no_custodian : String
  pub no_internal : String

-- The loops' variables: `matched`, `matchCount`, `breakCount`.
pub record Progress : Type 0 where
  pub matched : List String
  pub matches : ℕ
  pub breaks : ℕ

abbrev pub nothing_yet : Progress
nothing_yet = record { matched = []; matches = 0; breaks = 0 }

abbrev pub count_break : Progress → Progress
count_break p = record p { breaks = suc p.breaks }

abbrev pub mark : String → Progress → Progress
mark key p = record p { matched = key ∷ p.matched }

abbrev pub count_verdict : Verdict → Progress → Progress
count_verdict v p =
    if v.status == status_break
    then record p { breaks = suc p.breaks }
    else record p { matches = suc p.matches }

module _ {N A : Type 0} where
  abbrev pub judge : Kind N A → ReconConfig N → A → A → Verdict
  judge kind config x y =
      apply_rules kind.rules (record { internal = x; custodian = y; config = config })

module _ {N A : Type 0} ⦃env : Env⦄ where
  -- `for _, intPos := range internal`
  unfoldable pub pair_internal :
      Kind N A → ReconConfig N → ReconRun → List (String × A) → Progress → List A → Exec N Progress
  pair_internal kind config run custodian_map p [] = pure p
  pair_internal kind config run custodian_map p (x ∷ xs) =
      elim (lookup (kind.key x) custodian_map) [
        | none ↦ do
          persist_break run (kind.id x) kind.entity_type map_account_unmapped kind.no_custodian
          pair_internal kind config run custodian_map (count_break p) xs
        | some y ↦ do
          let v = judge kind config x y
          persist_result run (kind.id x) kind.entity_type v.status v.reason v.rule
          pair_internal kind config run custodian_map (count_verdict v (mark (kind.key x) p)) xs
      ]

  -- `for _, custPos := range custodian`
  unfoldable pub report_unmatched : Kind N A → ReconRun → Progress → List A → Exec N Progress
  report_unmatched kind run p [] = pure p
  report_unmatched kind run p (y ∷ ys) = elim (contains (kind.key y) p.matched) [
    | true ↦ report_unmatched kind run p ys
    | false ↦ do
      persist_break run (kind.id y) kind.entity_type map_account_unmapped kind.no_internal
      report_unmatched kind run (count_break p) ys
  ]

  -- The body of a reconcile method, from the two sorted lists on.
  unfoldable pub reconcile_pairs :
      Kind N A → ReconConfig N → ReconRun → List A → List A → Exec N Progress
  unfolding pair_internal report_unmatched build_map lookup
  reconcile_pairs kind config run internal custodian = do
    p ← pair_internal kind config run (build_map kind.key [] custodian) nothing_yet internal
    report_unmatched kind run p custodian

module _ {N : Type 0} ⦃f : Float64 N⦄ ⦃env : Env⦄ where
  unfoldable pub position_kind : Kind N (Position N)
  position_kind = record {
    entity_type = "position";
    id = λ p. p.id;
    key = position_key;
    rules = position_rules;
    no_custodian = "no custodian position found";
    no_internal = "no internal position found";
  }

  unfoldable pub transaction_kind : Kind N (Transaction N)
  transaction_kind = record {
    entity_type = "transaction";
    id = λ t. t.id;
    key = transaction_key;
    rules = transaction_rules;
    no_custodian = "no custodian transaction found";
    no_internal = "no internal transaction found";
  }

  unfoldable pub reconcile_positions : ReconConfig N → ReconRun → Exec N Progress
  reconcile_positions config run = do
    internal ←
        with_context "load internal positions" (list_positions_by_source "internal" run.as_of_date)
    custodian ←
        with_context "load custodian positions"
          (list_positions_by_source "custodian" run.as_of_date)
    reconcile_pairs position_kind config run (sort_by sorts_before internal)
        (sort_by sorts_before custodian)

  unfoldable pub reconcile_transactions : ReconConfig N → ReconRun → Exec N Progress
  reconcile_transactions config run = do
    internal ←
        with_context "load internal transactions"
          (list_transactions_by_source "internal" run.as_of_date)
    custodian ←
        with_context "load custodian transactions"
          (list_transactions_by_source "custodian" run.as_of_date)
    reconcile_pairs transaction_kind config run (sort_by transaction_sorts_before internal)
        (sort_by transaction_sorts_before custodian)

  -- `switch run.EntityType`
  unfoldable pub reconcile : ReconConfig N → ReconRun → Exec N Progress
  reconcile config run =
      if run.entity_type == "position"
      then reconcile_positions config run
      else if run.entity_type == "transaction"
      then reconcile_transactions config run
      else raise (message (concat ("unsupported entity type: " ∷ run.entity_type ∷ [])))

  -- The end of Run: an error of the status update is dropped where the run has failed already.
  unfoldable pub finish : String → Time → Result Progress → Exec N (Unit {0})
  finish run_id now (err e) = do
    attempt (update_recon_run_status run_id "failed" (some now))
    raise e
  finish run_id now (ok p) =
      with_context "mark run completed" (update_recon_run_status run_id "completed" (some now))

  unfoldable pub run : ReconConfig N → String → Exec N (Unit {0})
  unfolding finish
  run config run_id = do
    r ← with_context "load recon run" (get_recon_run run_id)
    outcome ← attempt (reconcile config r)
    now ← time_now
    finish run_id now outcome
