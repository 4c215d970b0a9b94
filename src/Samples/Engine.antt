-- ===== src/Samples/Engine.antt =====
-- The theorems on the keys and the audit trail of internal/recon at concrete inputs.
use trust_lot.Prelude.{ℕ, List, map, All, inl, ◌≡◌, ◌↔◌, refl}
use trust_lot.Prelude.Int.{pos}
use trust_lot.Recon.Pairing.{position_key, transaction_key}
use trust_lot.Recon.Keys.{keys_iff}
use trust_lot.Recon.Engine.{run}
use trust_lot.Recon.Recorded.{reported, report_of}
use trust_lot.Recon.Complete.{run_outcomes}
use trust_lot.Recon.Entries.{Entry, flat, ids_in, draws, IsTrail, IsBacked}
use trust_lot.Recon.Trail.{run-IsTrail}
use trust_lot.Samples.Numbers.{cents}
use trust_lot.Samples.Data.{
  quiet, quiet-IsHealthy, position_run, ours, theirs, trade, database, tolerances,
}

keys_iff_example :
    let s = trade "t-1" (pos 50) "internal" in
    let t = trade "u-1" (pos 51) "custodian" in
    ((position_key ours ≡ position_key theirs)
      ↔ ((ours.account_id ≡ theirs.account_id) × (ours.security_id ≡ theirs.security_id)))
    × ((transaction_key s ≡ transaction_key t) ↔ (
        (s.account_id ≡ t.account_id)
        × (s.security_id ≡ t.security_id)
        × (s.txn_type ≡ t.txn_type)
        × (quiet.format_date s.trade_date ≡ quiet.format_date t.trade_date)))
keys_iff_example =
    keys_iff ours theirs (trade "t-1" (pos 50) "internal") (trade "u-1" (pos 51) "custodian") refl
      refl (refl, refl, refl) (refl, refl, refl)

run-IsTrail_example :
    (entries : List Entry) × IsTrail database.tables
      (run tolerances "run-1" database).1.tables
      entries
    × All IsBacked entries
    × (map (λ e. reported e.result) entries
        ≡ map
            (report_of position_run "position")
            (run_outcomes tolerances position_run database.tables))
    × ((n : ℕ) × (flat ids_in entries ≡ draws 0 n))
run-IsTrail_example =
    run-IsTrail quiet-IsHealthy tolerances "run-1" database position_run refl (inl refl)
