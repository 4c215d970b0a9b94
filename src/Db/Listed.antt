-- ===== src/Db/Listed.antt =====
-- What the methods of internal/db/store.go that take a limit list.
use trust_lot.Prelude.{
  ℕ, zero, suc, String, none, List, [], ◌∷◌, ◌==◌, map, take, keep, ltb, sort_by, ◌≡◌, refl, ap,
  ◌∙◌, arith, if◌then◌else◌,
}
use trust_lot.Platform.{Env}
use trust_lot.Model.{ReconRun, Exception}
use trust_lot.Model.ReasonCode.{status_match, status_break}
use trust_lot.Db.Tables.{ReconResultRow, TrustScoreRow}
use trust_lot.Db.Exec.{ok, World, query, on_error, limited}
use trust_lot.Db.Recon.{ReconRunRow, count_results, list_recon_runs}
use trust_lot.Db.Exceptions.{list_exceptions}
use trust_lot.Db.Scores.{list_trust_scores}
use trust_lot.Db.Newest.{IsNewest, limited-IsNewest}

take-map : {A B : Type 0} (f : A → B) (n : ℕ) (xs : List A) → take n (map f xs) ≡ map f (take n xs)
take-map f zero xs = refl
take-map f (suc n) [] = refl
take-map f (suc n) (x ∷ xs) = ap (◌∷◌ (f x)) (take-map f n xs)

limited-map :
    {A B : Type 0} (f : A → B) (n : ℕ) (xs : List A) → limited n (map f xs) ≡ map f (limited n xs)
limited-map f zero xs = refl
limited-map f (suc n) xs = take-map f (suc n) xs

-- How many of the results are of this run and of this status.
abbrev pub number_of : String → String → List ReconResultRow → ℕ
number_of run_id status [] = 0
number_of run_id status (r ∷ rows) =
    if r.run_id == run_id
    then if r.status == status
      then suc (number_of run_id status rows)
      else number_of run_id status rows
    else number_of run_id status rows

-- A run with the numbers of its matches and breaks.
abbrev pub counted : List ReconResultRow → ReconRun → ReconRunRow
counted rows r = record {
  run = r;
  match_count = number_of r.id "MATCH" rows;
  break_count = number_of r.id "BREAK" rows;
}

count_results-number_of :
    (run_id status : String) (rows : List ReconResultRow)
    → count_results run_id status rows ≡ number_of run_id status rows
unfolding count_results
count_results-number_of run_id status [] = refl
count_results-number_of run_id status (r ∷ rows) =
    ground (arith, count_results-number_of run_id status rows)

-- A run with its numbers, as ListReconRuns counts them.
abbrev with_counts : List ReconResultRow → ReconRun → ReconRunRow
with_counts rows r = record {
  run = r;
  match_count = count_results r.id status_match rows;
  break_count = count_results r.id status_break rows;
}

with_counts-counted :
    (rows : List ReconResultRow) (rs : List ReconRun)
    → map (with_counts rows) rs ≡ map (counted rows) rs
with_counts-counted rows [] = refl
with_counts-counted rows (r ∷ rs) = λ i.
    record {
      run = r;
      match_count = count_results-number_of r.id status_match rows i;
      break_count = count_results-number_of r.id status_break rows i;
    }
    ∷ with_counts-counted rows rs i

abbrev pub asked_for : String → List Exception → List Exception
asked_for status es = if status == "" then es else keep (λ e. e.status == status) es

module _ {N : Type 0} ⦃env : Env⦄ where
  -- Where the database serves the call, ListExceptions, ListTrustScores and ListReconRuns return the
  -- newest rows of those that are asked for, the newest first: as many as the limit, or all of them if
  -- there are fewer or the limit is 0. Exceptions are asked for by status, or all of them where it is
  -- empty; a run comes with the numbers of its matches and breaks.
  pub lists-IsNewest :
      (status : String) (limit : ℕ) (w : World N)
      → env.fault w.calls ≡ none
      → ((es : List Exception) × ((list_exceptions status limit w).0 ≡ ok es)
          × IsNewest (λ e. e.created_at) limit (asked_for status w.tables.exceptions) es)
        × ((ts : List TrustScoreRow) × ((list_trust_scores limit w).0 ≡ ok ts)
            × IsNewest (λ t. t.computed_at) limit w.tables.trust_scores ts)
        × ((rs : List ReconRun) × ((list_recon_runs limit w).0
              ≡ ok (map (counted w.tables.recon_results) rs))
            × IsNewest (λ r. r.started_at) limit w.tables.recon_runs rs)
  unfolding list_exceptions list_trust_scores list_recon_runs query on_error
  lists-IsNewest status limit w served = (
    (
      _,
      simp served,
      limited-IsNewest (λ e. e.created_at) limit (asked_for status w.tables.exceptions),
    ),
    (_, simp served, limited-IsNewest (λ t. t.computed_at) limit w.tables.trust_scores),
    (
      _,
      simp served (
          ap (λ x. ok x)
            (limited-map (with_counts w.tables.recon_results) limit
                (sort_by (λ r s. ltb s.started_at r.started_at) w.tables.recon_runs)
              ∙ with_counts-counted w.tables.recon_results _)),
      limited-IsNewest (λ r. r.started_at) limit w.tables.recon_runs,
    ),
  )
