-- ===== src/Samples/Recon.antt =====
-- The theorems on internal/recon at concrete inputs.
use mathlib.Core.List.{Permᴰ}
use trust_lot.Prelude.{
  String, some, true, false, List, [], ◌∷◌, ◌++◌, map, ◌==◌, eq_iff, ◌≡◌, ◌≢◌, ◌↔◌, ◌⊎◌, inl, refl,
  arith, All, update,
}
use trust_lot.Prelude.Int.{ℤ, pos, negsuc}
use trust_lot.Platform.{Time}
use trust_lot.Model.{Position}
use trust_lot.Model.ReasonCode.{
  status_match, pos_quantity_mismatch, pos_price_source_diff, txn_duplicate,
}
use trust_lot.Db.Exec.{World, ok, pure, ◌>>=◌, ◌>>◌}
use trust_lot.Db.Recon.{of_row}
use trust_lot.Recon.Rules.{Rule, RuleContext, apply_rules, position_rules}
use trust_lot.Recon.Engine.{position_kind, reconcile_pairs, run}
use trust_lot.Recon.Pairing.{position_key}
use trust_lot.Recon.Outcomes.{internal_outcome, leftover, partner, has_key, outcomes, persist_all}
use trust_lot.Recon.Loops.{counts, tally, reconcile_pairs-eq}
use trust_lot.Recon.Recorded.{reported, raised, report_of, raises_of}
use trust_lot.Recon.Safety.{IsInput, run-IsInput}
use trust_lot.Recon.Traced.{IsTraced, run-IsTraced}
use trust_lot.Recon.Status.{Settled, run-Settled}
use trust_lot.Recon.Unordered.{IsReordered, run_order_irrelevant}
use trust_lot.Recon.Complete.{completed, run_outcomes, run-completes}
use trust_lot.Recon.Verdicts.{
  position_verdict, transaction_verdict, quantity_off, value_off, all_match, Passes,
  apply_rules_first, position_verdict_iff, transaction_verdict_duplicate, verdict_comm,
}
use trust_lot.Samples.Numbers.{cents, cents-IsIeee}
use trust_lot.Samples.Data.{
  quiet, quiet-IsHealthy, position_run, holding, ours, theirs, trade, database, tolerances,
}

run-completes_example :
    let after = (run tolerances "run-1" database).1.tables in
    ((run tolerances "run-1" database).0 ≡ ok tt)
    × (map reported after.recon_results
        ≡ map reported database.tables.recon_results
          ++ map
              (report_of position_run "position")
              (run_outcomes tolerances position_run database.tables))
    × (map raised after.exceptions
        ≡ map raised database.tables.exceptions
          ++ raises_of position_run "position"
              (run_outcomes tolerances position_run database.tables))
    × ((now : Time) × (after.recon_runs
          ≡ update (λ x. x.id == "run-1") (completed now) database.tables.recon_runs))
run-completes_example =
    run-completes quiet-IsHealthy tolerances "run-1" database position_run refl (inl refl)

reconcile_pairs-eq_example :
    (reconcile_pairs position_kind tolerances position_run (ours ∷ []) (theirs ∷ []) >>= λ p.
    pure (counts p))
    ≡ (persist_all position_run "position"
          (outcomes position_kind tolerances (ours ∷ []) (theirs ∷ []))
        >> pure (tally (outcomes position_kind tolerances (ours ∷ []) (theirs ∷ []))))
unfolding position_kind
reconcile_pairs-eq_example =
    reconcile_pairs-eq position_kind tolerances (ours ∷ []) (theirs ∷ []) position_run

run-Settled_example :
    Settled "run-1" database.tables.recon_runs
      (run tolerances "run-1" database).0
      (run tolerances "run-1" database).1.tables.recon_runs
run-Settled_example = run-Settled tolerances "run-1" database

run-IsInput_example : IsInput database.tables (run tolerances "run-1" database).1.tables
run-IsInput_example = run-IsInput tolerances "run-1" database

run-IsTraced_example : IsTraced (run tolerances "run-1" database).1.tables
unfolding of_row
run-IsTraced_example = run-IsTraced tolerances "run-1" database (refl, tt)

position_verdict_iff_example :
    (((position_verdict tolerances ours theirs).status ≡ status_match) ↔ (
      (quantity_off tolerances ours theirs ≡ false) × (value_off tolerances ours theirs ≡ false)))
    × (((position_verdict tolerances ours theirs).reason ≡ some pos_quantity_mismatch)
        ↔ (quantity_off tolerances ours theirs ≡ true))
    × (((position_verdict tolerances ours theirs).reason ≡ some pos_price_source_diff) ↔ (
        (quantity_off tolerances ours theirs ≡ false) × (value_off tolerances ours theirs ≡ true)))
position_verdict_iff_example = position_verdict_iff tolerances ours theirs

ids_differ : ◌≢◌ {A = String} "t-1" "u-1"
ids_differ = ground (arith, eq_iff "t-1" "u-1")

-- Amounts a cent apart, within the tolerance.
transaction_verdict_duplicate_example :
    let s = trade "t-1" (pos 50) "internal" in
    let t = trade "u-1" (pos 51) "custodian" in
    ((transaction_verdict tolerances s t).reason ≡ some txn_duplicate)
    ↔ (cents.eq s.amount t.amount ≡ false)
transaction_verdict_duplicate_example =
    transaction_verdict_duplicate tolerances (trade "t-1" (pos 50) "internal")
      (trade "u-1" (pos 51) "custodian") ids_differ refl refl refl

-- The two positions under the tolerances.
abbrev context : RuleContext ℤ (Position ℤ)
context = record { internal = ours; custodian = theirs; config = tolerances }

apply_rules_first_example :
    (All (Passes context) position_rules × (apply_rules position_rules context ≡ all_match))
    ⊎ ((front : List (Rule ℤ (Position ℤ))) × (r : Rule ℤ (Position ℤ)) × (back : List
          (Rule ℤ (Position ℤ)))
        × (position_rules ≡ front ++ r ∷ back)
        × All (Passes context) front
        × ((r.evaluate context).0 ≢ status_match)
        × (apply_rules position_rules context ≡ record {
          status = (r.evaluate context).0;
          reason = (r.evaluate context).1;
          rule = r.name;
        }))
apply_rules_first_example = apply_rules_first position_rules context

verdict_comm_example :
    let s = trade "t-1" (pos 50) "internal" in
    let t = trade "u-1" (pos 51) "custodian" in
    (position_verdict tolerances ours theirs ≡ position_verdict tolerances theirs ours)
    × (transaction_verdict tolerances s t ≡ transaction_verdict tolerances t s)
verdict_comm_example =
    verdict_comm cents-IsIeee tolerances ours theirs (trade "t-1" (pos 50) "internal")
      (trade "u-1" (pos 51) "custodian")

-- A second record of the custodian with the key of the first.
abbrev again : Position ℤ
again = holding "q-2" "AAPL" (pos 100) (pos 5_000) "custodian"

-- The pair is judged against the custodian's last record of the key; the other one is not reported.
second_of_a_key :
    map
      (λ o. o.entity_id)
      (outcomes position_kind tolerances
        (ours ∷ [])
        (theirs ∷ again ∷ holding "q-3" "TSLA" (pos 7) (pos 0) "custodian" ∷ []))
    ≡ "p-1" ∷ "q-3" ∷ []
unfolding outcomes position_kind internal_outcome leftover partner has_key position_key apply_rules
    position_rules
second_of_a_key = refl

-- The database with its first two positions the other way round.
abbrev shuffled : World ℤ
shuffled = record database {
  tables = record database.tables {
    positions =
        theirs
        ∷ ours
        ∷ holding "p-2" "MSFT" (pos 5) (pos 70) "internal"
        ∷ holding "q-3" "TSLA" (pos 7) (negsuc 0) "custodian"
        ∷ [];
  };
}

shuffled-IsReordered : IsReordered database.tables shuffled.tables
shuffled-IsReordered = record {
  positions = Permᴰ.swap refl refl;
  transactions = Permᴰ.nil;
  positions_unlike = ((refl, (refl, (refl, tt))), ((refl, (refl, tt)), ((refl, tt), (tt, tt))));
  transactions_unlike = tt;
  recon_runs = refl;
  recon_results = refl;
  exceptions = refl;
}

run_order_irrelevant_example :
    let s = (run tolerances "run-1" database).1.tables in
    let t = (run tolerances "run-1" shuffled).1.tables in
    ((run tolerances "run-1" database).0 ≡ (run tolerances "run-1" shuffled).0)
    × (map reported s.recon_results ≡ map reported t.recon_results)
    × (map raised s.exceptions ≡ map raised t.exceptions)
run_order_irrelevant_example =
    run_order_irrelevant quiet-IsHealthy tolerances "run-1" database shuffled position_run
      shuffled-IsReordered refl (inl refl)
