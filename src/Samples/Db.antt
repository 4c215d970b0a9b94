-- ===== src/Samples/Db.antt =====
-- The theorem on the lists of internal/db at a concrete input.
use trust_lot.Prelude.{List, [], ◌∷◌, map, ◌≡◌, refl}
use trust_lot.Prelude.Int.{ℤ}
use trust_lot.Model.{ReconRun, Exception}
use trust_lot.Db.Tables.{TrustScoreRow}
use trust_lot.Db.Exec.{ok, World}
use trust_lot.Db.Recon.{list_recon_runs}
use trust_lot.Db.Exceptions.{list_exceptions}
use trust_lot.Db.Scores.{list_trust_scores}
use trust_lot.Db.Newest.{IsNewest}
use trust_lot.Db.Listed.{counted, asked_for, lists-IsNewest}
use trust_lot.Samples.Data.{quiet, quantity_exception, database}

-- Two open exceptions and one that is resolved.
abbrev three : World ℤ
three = record database {
  tables = record database.tables {
    exceptions =
        quantity_exception
        ∷ record quantity_exception { id = "exc-2"; created_at = 2 }
        ∷ record quantity_exception { id = "exc-3"; status = "resolved"; created_at = 3 }
        ∷ [];
  };
}

lists-IsNewest_example :
    ((es : List Exception) × ((list_exceptions "open" 1 three).0 ≡ ok es)
      × IsNewest (λ e. e.created_at) 1 (asked_for "open" three.tables.exceptions) es)
    × ((ts : List TrustScoreRow) × ((list_trust_scores 1 three).0 ≡ ok ts)
        × IsNewest (λ t. t.computed_at) 1 three.tables.trust_scores ts)
    × ((rs : List ReconRun) × ((list_recon_runs 1 three).0
          ≡ ok (map (counted three.tables.recon_results) rs))
        × IsNewest (λ r. r.started_at) 1 three.tables.recon_runs rs)
lists-IsNewest_example = lists-IsNewest "open" 1 three refl
