-- ===== src/Recon/Trail.antt =====
-- The audit trail that a run of internal/recon/engine.go leaves where the database serves every call:
-- results, exceptions, events and edges of the lineage.
use mathlib.Core.List.{append_assoc, append-nil}
use trust_lot.Prelude.{
  ℕ, suc, String, Bool, true, false, Option, none, some, List, [], ◌∷◌, ◌++◌, map, ◌==◌, eq_iff,
  ◌≡◌, refl, sym, ap, inl, inr, arith, All, find,
}
use trust_lot.Platform.{Float64, Env, IsHealthy}
use trust_lot.Model.{ReconRun, Exception}
use trust_lot.Model.ReasonCode.{status_break}
use trust_lot.Db.Tables.{ReconConfig}
use trust_lot.Db.Recon.{to_row}
use trust_lot.Db.Exec.{stored_time, World}
use trust_lot.Recon.Outcomes.{Outcome}
use trust_lot.Recon.Engine.{run}
use trust_lot.Recon.Effects.{result_row, after_break, after_insert, after_result}
use trust_lot.Recon.Recorded.{reported, report_of, recorded, nullable-code_or_empty}
use trust_lot.Recon.Complete.{IsSupported, run_outcomes, run-ends, recorded_world}
use trust_lot.Recon.Entries.{
  flat, ids_in, draws, listed, Entry, IsTrail, IsTrail-next, Backs, IsBacked,
}

-- The entry of an outcome.
abbrev raised_at :
    ⦃env : Env⦄ {N : Type 0}
    → ReconRun
    → String
    → String
    → Bool
    → Option String
    → World N
    → Option Exception
raised_at ⦃env⦄ run ty entity_id true (some rc) w = some (record {
  id = env.fresh_id w.ids;
  recon_run_id = run.id;
  entity_type = ty;
  entity_id = entity_id;
  reason_code = rc;
  status = "open";
  assigned_to = "";
  created_at = stored_time (env.now w.ticks);
  updated_at = stored_time (env.now w.ticks);
})
raised_at run ty entity_id true none w = none
raised_at run ty entity_id false reason w = none

module _ {N : Type 0} ⦃env : Env⦄ (run : ReconRun) (ty : String) where
  abbrev entry_of : Outcome → World N → Entry
  entry_of o w = record {
    result = result_row run o.entity_id ty o.status o.reason o.details (env.fresh_id w.ids);
    raised =
        raised_at run ty o.entity_id (o.status == status_break) o.reason
          (after_insert run o.entity_id ty o.status o.reason o.details w);
  }

  abbrev entries_of : List Outcome → World N → List Entry
  entries_of [] w = []
  entries_of (o ∷ os) w =
      entry_of o w ∷ entries_of os (after_result run o.entity_id ty o.status o.reason o.details w)

  step-IsTrail :
      (o : Outcome) (b : Bool) (reason : Option String) (w : World N)
      → let v = after_insert run o.entity_id ty o.status o.reason o.details w in
        IsTrail w.tables (after_break run o.entity_id ty b reason (env.fresh_id w.ids) v).tables (
          record {
            result = result_row run o.entity_id ty o.status o.reason o.details (env.fresh_id w.ids);
            raised = raised_at run ty o.entity_id b reason v;
          }
          ∷ [])
  unfolding after_break after_insert to_row
  step-IsTrail o true (some rc) w = record {
    results = refl;
    exceptions = refl;
    events = refl;
    edges = append_assoc w.tables.lineage_edges _ _;
  }
  step-IsTrail o true none w = record {
    results = refl;
    exceptions = sym (append-nil _);
    events = sym (append-nil _);
    edges = refl;
  }
  step-IsTrail o false reason w = record {
    results = refl;
    exceptions = sym (append-nil _);
    events = sym (append-nil _);
    edges = refl;
  }

  recorded-IsTrail :
      (os : List Outcome) (w : World N)
      → IsTrail w.tables (recorded run ty os w).tables (entries_of os w)
  unfolding recorded after_result
  recorded-IsTrail [] w = record {
    results = sym (append-nil _);
    exceptions = sym (append-nil _);
    events = sym (append-nil _);
    edges = sym (append-nil _);
  }
  recorded-IsTrail (o ∷ os) w =
      let v = after_result run o.entity_id ty o.status o.reason o.details w in
      IsTrail-next w.tables v.tables _ (entry_of o w) (entries_of os v)
        (step-IsTrail o (o.status == status_break) o.reason w) (recorded-IsTrail os v)

  entry-IsBacked :
      (o : Outcome) (b : Bool) (reason : Option String) (w v : World N)
      → (o.status == status_break) ≡ b
      → o.reason ≡ reason
      → Backs
          (result_row run o.entity_id ty o.status o.reason o.details (env.fresh_id w.ids))
          (raised_at run ty o.entity_id b reason v)
  unfolding to_row
  entry-IsBacked o true (some rc) w v e g =
      (ground (arith, eq_iff o.status status_break), refl, refl, refl, refl, rw g refl)
  entry-IsBacked o true none w v e g = inr (rw g refl)
  entry-IsBacked o false reason w v e g = inl e

  entries-IsBacked : (os : List Outcome) (w : World N) → All IsBacked (entries_of os w)
  entries-IsBacked [] w = tt
  entries-IsBacked (o ∷ os) w =
      (entry-IsBacked o (o.status == status_break) o.reason w _ refl refl, entries-IsBacked os _)

  entries-reported :
      (os : List Outcome) (w : World N)
      → map (λ e. reported e.result) (entries_of os w) ≡ map (report_of run ty) os
  unfolding to_row
  entries-reported [] w = refl
  entries-reported (o ∷ os) w =
      rw (nullable-code_or_empty o.reason) (ap (◌∷◌ (report_of run ty o)) (entries-reported os _))

  step-draws :
      (o : Outcome) (b : Bool) (reason : Option String) (w : World N) (ids : List String) (n : ℕ)
      → let v = after_insert run o.entity_id ty o.status o.reason o.details w in
        ids ≡ draws (after_break run o.entity_id ty b reason (env.fresh_id w.ids) v).ids n
        → (m : ℕ) × (env.fresh_id w.ids
                ∷ map (λ x. x.id) (listed (raised_at run ty o.entity_id b reason v))
              ++ ids
            ≡ draws w.ids m)
  unfolding after_break after_insert
  step-draws o true (some rc) w ids n h =
      (suc (suc n), ap (λ xs. env.fresh_id w.ids ∷ env.fresh_id (suc w.ids) ∷ xs) h)
  step-draws o true none w ids n h = (suc n, ap (◌∷◌ (env.fresh_id w.ids)) h)
  step-draws o false reason w ids n h = (suc n, ap (◌∷◌ (env.fresh_id w.ids)) h)

  entries-draws :
      (os : List Outcome) (w : World N) → (n : ℕ) × (flat ids_in (entries_of os w) ≡ draws w.ids n)
  unfolding to_row after_result
  entries-draws [] w = (0, refl)
  entries-draws (o ∷ os) w =
      let v = after_result run o.entity_id ty o.status o.reason o.details w in
      let (n, rest) = entries-draws os v in
      step-draws o (o.status == status_break) o.reason w (flat ids_in (entries_of os v)) n rest

module _ {N : Type 0} ⦃f : Float64 N⦄ ⦃env : Env⦄ where
  -- Where the database serves every call, the run is found and its entity type is position or
  -- transaction, a run leaves an audit trail: it appends to recon_results one row for each outcome of the
  -- records loaded, in their order; to exceptions one open exception of the same run, record and reason
  -- for each of these that is a BREAK with a reason, and no other; to exception_events one event
  -- `created` for each of these exceptions; and to lineage_edges an edge from each record to its result,
  -- followed by one from the result to its exception if it has one. The ids of the results and exceptions
  -- are the next ones drawn, each drawn once.
  pub run-IsTrail :
      IsHealthy env
      → (config : ReconConfig N) (id : String) (w : World N) (r : ReconRun)
      → find (λ x. x.id == id) w.tables.recon_runs ≡ some r
      → IsSupported r.entity_type
      → (entries : List Entry) × IsTrail w.tables (run config id w).1.tables entries
        × All IsBacked entries
        × (map (λ e. reported e.result) entries
            ≡ map (report_of r r.entity_type) (run_outcomes config r w.tables))
        × ((n : ℕ) × (flat ids_in entries ≡ draws w.ids n))
  unfolding recorded_world
  run-IsTrail healthy config id w r found supported =
      let start : World N = record w { calls = suc (suc (suc w.calls)) } in
      let os = run_outcomes config r w.tables in
      let trail = recorded-IsTrail r r.entity_type os start in
      (
        entries_of r r.entity_type os start,
        rw (run-ends healthy config id w r found supported) (record {
          results = trail.results;
          exceptions = trail.exceptions;
          events = trail.events;
          edges = trail.edges;
        }),
        entries-IsBacked r r.entity_type os start,
        entries-reported r r.entity_type os start,
        entries-draws r r.entity_type os start,
      )
