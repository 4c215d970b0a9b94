-- ===== src/Recon/Kept.antt =====
-- What the engine of internal/recon/engine.go keeps of the tables, whatever calls of the database
-- fail, from what its writes keep.
use trust_lot.Prelude.{
  String, Bool, true, false, Option, none, some, List, [], ◌∷◌, ◌≡◌, Option-cases, Bool-cases, inl,
  inr, lookup, contains,
}
use trust_lot.Platform.{Time, Float64, Env}
use trust_lot.Model.{ReconRun, Exception}
use trust_lot.Db.Tables.{Tables, ReconConfig}
use trust_lot.Db.Exec.{Result, ok, err}
use trust_lot.Db.Keeps.{
  Keeps, Keeps-pure, Keeps-raise, Keeps-bind, Keeps-on_error, Keeps-attempt, keeps_rules,
}
use trust_lot.Db.Records.{list_positions_by_source, list_transactions_by_source}
use trust_lot.Db.Recon.{get_recon_run, update_recon_run_status}
use trust_lot.Db.Exceptions.{insert_exception, insert_exception_event, insert_lineage_edge}
use trust_lot.Recon.Persist.{
  code_or_empty, create_exception, raise_break, persist_result, persist_break,
}
use trust_lot.Recon.Fitting.{
  fitting, IsFitting, position_kind-IsFitting, transaction_kind-IsFitting,
}
use trust_lot.Recon.Engine.{
  position_kind, transaction_kind, Kind, Progress, count_break, count_verdict, mark, judge,
  pair_internal, report_unmatched, reconcile_pairs, reconcile_positions, reconcile_transactions,
  reconcile, finish, run,
}

-- A property that persistResult keeps where the reason fits the type of the entity, and one that the update of a run's status keeps.
abbrev pub ResultsKept : {N : Type 0} → (Tables N → Type 0) → ⦃env : Env⦄ → Type 0
ResultsKept P =
    (r : ReconRun) (entity_id entity_type status : String) (reason : Option String)
    (details : String)
    → fitting entity_type (code_or_empty reason) ≡ true
    → Keeps P (persist_result r entity_id entity_type status reason details)

abbrev pub RunsKept : {N : Type 0} → (Tables N → Type 0) → ⦃env : Env⦄ → Type 0
RunsKept P =
    (id status : String) (now : Option Time) → Keeps P (update_recon_run_status id status now)

module _ {N A : Type 0} {P : Tables N → Type 0} ⦃env : Env⦄ (results : ResultsKept P) where
  pair_internal-Keeps :
      (kind : Kind N A)
      → IsFitting kind
      → (config : ReconConfig N) (r : ReconRun) (m : List (String × A)) (p : Progress) (xs : List A)
      → Keeps P (pair_internal kind config r m p xs)
  unfolding pair_internal persist_break
  pair_internal-Keeps kind fit config r m p [] = Keeps-pure p
  pair_internal-Keeps kind fit config r m p (x ∷ xs) = elim (Option-cases (lookup (kind.key x) m)) [
    | inl e ↦
        rw (e, pair_internal)
          (Keeps-bind _ _ (results r _ _ _ _ _ fit.unmapped)
            (λ _. pair_internal-Keeps kind fit config r m (count_break p) xs))
    | inr (y, e) ↦
        rw (e, pair_internal)
          (Keeps-bind _ _ (results r _ _ _ _ _ (fit.judged config x y)) (λ _.
            pair_internal-Keeps kind fit config r m
              (count_verdict (judge kind config x y) (mark (kind.key x) p)) xs))
  ]

  report_unmatched-Keeps :
      (kind : Kind N A)
      → IsFitting kind
      → (r : ReconRun) (p : Progress) (ys : List A) → Keeps P (report_unmatched kind r p ys)
  unfolding report_unmatched persist_break
  report_unmatched-Keeps kind fit r p [] = Keeps-pure p
  report_unmatched-Keeps kind fit r p (y ∷ ys) =
      elim (Bool-cases (contains (kind.key y) p.matched)) [
        | inl e ↦ rw (e, report_unmatched) (report_unmatched-Keeps kind fit r p ys)
        | inr e ↦
            rw (e, report_unmatched)
              (Keeps-bind _ _ (results r _ _ _ _ _ fit.unmapped)
                (λ _. report_unmatched-Keeps kind fit r (count_break p) ys))
      ]

  reconcile_pairs-Keeps :
      (kind : Kind N A)
      → IsFitting kind
      → (config : ReconConfig N) (r : ReconRun) (internal custodian : List A)
      → Keeps P (reconcile_pairs kind config r internal custodian)
  unfolding reconcile_pairs
  reconcile_pairs-Keeps kind fit config r internal custodian =
      Keeps-bind _ _ (pair_internal-Keeps kind fit config r _ _ internal)
        (λ p. report_unmatched-Keeps kind fit r p custodian)

module _ {N : Type 0} {P : Tables N → Type 0} ⦃f : Float64 N⦄ ⦃env : Env⦄
    (results : ResultsKept P) where
  pub reconcile-Keeps : (config : ReconConfig N) (r : ReconRun) → Keeps P (reconcile config r)
  unfolding reconcile reconcile_positions reconcile_transactions list_positions_by_source
      list_transactions_by_source
  reconcile-Keeps config r =
      search
        (
          keeps_rules,
          reconcile_pairs-Keeps results position_kind position_kind-IsFitting,
          reconcile_pairs-Keeps results transaction_kind transaction_kind-IsFitting,
        )
        depth 8

module _ {N : Type 0} {P : Tables N → Type 0} ⦃f : Float64 N⦄ ⦃env : Env⦄ (results : ResultsKept P)
    (runs : RunsKept P) where
  finish-Keeps :
      (id : String) (now : Time) (outcome : Result Progress) → Keeps P (finish id now outcome)
  unfolding finish
  finish-Keeps id now (ok p) = Keeps-on_error _ _ (runs id _ _)
  finish-Keeps id now (err e) = Keeps-bind _ _ (Keeps-attempt _ (runs id _ _)) (λ _. Keeps-raise e)

  pub run-Keeps : (config : ReconConfig N) (id : String) → Keeps P (run config id)
  unfolding run get_recon_run
  run-Keeps config id = search (keeps_rules, reconcile-Keeps results, finish-Keeps) depth 8

-- The exception that createException inserts, but for its id and its time.

-- The exception that createException inserts, but for its id and its time.
abbrev pub new_exception : ReconRun → String → String → String → String → Time → Exception
new_exception r entity_id entity_type rc id now = record {
  id = id;
  recon_run_id = r.id;
  entity_type = entity_type;
  entity_id = entity_id;
  reason_code = rc;
  status = "open";
  assigned_to = "";
  created_at = now;
  updated_at = now;
}

module _ {N : Type 0} {P : Tables N → Type 0} ⦃env : Env⦄
    (edges : (a b c d e : String) → Keeps P (insert_lineage_edge a b c d e))
    (events : (a b c d : String) → Keeps P (insert_exception_event a b c d)) where
  pub raise_break-Keeps :
      (r : ReconRun) (entity_id entity_type : String) (b : Bool) (reason : Option String)
      (result_id : String)
      → (b ≡ true
          → (id : String) (now : Time)
          → Keeps P (
              insert_exception
                (new_exception r entity_id entity_type (code_or_empty reason) id now)))
      → Keeps P (raise_break r entity_id entity_type b reason result_id)
  unfolding raise_break create_exception
  raise_break-Keeps r entity_id entity_type true (some rc) result_id inserted =
      search (keeps_rules, edges, events) depth 12
  raise_break-Keeps r entity_id entity_type true none result_id inserted = Keeps-pure tt
  raise_break-Keeps r entity_id entity_type false reason result_id inserted = Keeps-pure tt
