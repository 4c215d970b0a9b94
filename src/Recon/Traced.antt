-- ===== src/Recon/Traced.antt =====
-- The results behind the exceptions that internal/recon/engine.go raises.
use trust_lot.Prelude.{
  String, Bool, true, false, Option, ◌&&◌, ◌||◌, List, [], ◌∷◌, ◌++◌, ◌==◌, eq_refl, ◌≡◌, arith,
  All,
}
use trust_lot.Platform.{Time, Float64, Env}
use trust_lot.Model.{ReconRun, ReconResult, Exception}
use trust_lot.Model.ReasonCode.{status_break}
use trust_lot.Db.Tables.{Tables, ReconResultRow, ReconConfig}
use trust_lot.Db.Exec.{World}
use trust_lot.Db.Keeps.{
  Keeps, Leads, Keeps-bind, Keeps-on_error, Keeps-attempt, Keeps-generate_id, Keeps-execute,
  Leads-bind, Leads-on_error, Leads-execute,
}
use trust_lot.Db.Recon.{update_recon_run_status, insert_recon_result, to_row, of_row, of_row-to_row}
use trust_lot.Db.Exceptions.{insert_exception, insert_exception_event, insert_lineage_edge}
use trust_lot.Recon.Persist.{code_or_empty, persist_result}
use trust_lot.Recon.Engine.{run}
use trust_lot.Recon.Kept.{RunsKept, run-Keeps, new_exception, raise_break-Keeps}

-- A BREAK result of the same run, record and reason.
abbrev explains : Exception → ReconResult → Bool
explains e r =
    r.run_id == e.recon_run_id
    && r.entity_type == e.entity_type
    && r.entity_id == e.entity_id
    && r.status == status_break
    && r.reason_code == e.reason_code

abbrev pub has_result : Exception → List ReconResultRow → Bool
has_result e [] = false
has_result e (r ∷ rows) = explains e (of_row r) || has_result e rows

-- Each exception has a result that explains it.
abbrev pub IsTraced : {N : Type 0} → Tables N → Type 0
IsTraced t = All (λ e. has_result e t.recon_results ≡ true) t.exceptions

has_result-append :
    (e : Exception) (rows : List ReconResultRow) (r : ReconResultRow)
    → has_result e rows ≡ true
    → has_result e (rows ++ r ∷ []) ≡ true
has_result-append e [] r h = cc
has_result-append e (q ∷ rows) r h = ground (arith, has_result-append e rows r)

has_result-append_self :
    (e : Exception) (rows : List ReconResultRow) (r : ReconResultRow)
    → explains e (of_row r) ≡ true
    → has_result e (rows ++ r ∷ []) ≡ true
has_result-append_self e [] r h = ground arith
has_result-append_self e (q ∷ rows) r h = ground (arith, has_result-append_self e rows r h)

pub All-snoc :
    {A : Type 0} (P : A → Type 0) (xs : List A) (x : A) → All P xs → P x → All P (xs ++ x ∷ [])
All-snoc P [] x h hx = (hx, tt)
All-snoc P (y ∷ xs) x h hx = (h.0, All-snoc P xs x h.1 hx)

traced-grows :
    (rows : List ReconResultRow) (r : ReconResultRow) (es : List Exception)
    → All (λ e. has_result e rows ≡ true) es
    → All (λ e. has_result e (rows ++ r ∷ []) ≡ true) es
traced-grows rows r [] h = tt
traced-grows rows r (e ∷ es) h = (has_result-append e rows r h.0, traced-grows rows r es h.1)

-- The result that persistResult inserts.
abbrev new_result :
    ReconRun → String → String → String → Option String → String → String → ReconResult
new_result r entity_id entity_type status reason details id = record {
  id = id;
  run_id = r.id;
  entity_type = entity_type;
  entity_id = entity_id;
  status = status;
  reason_code = code_or_empty reason;
  details = details;
}

new_result-explains :
    (r : ReconRun) (entity_id entity_type status : String) (reason : Option String)
    (details id exc_id : String) (now : Time)
    → (status == status_break) ≡ true
    → explains
        (new_exception r entity_id entity_type (code_or_empty reason) exc_id now)
        (of_row (to_row (new_result r entity_id entity_type status reason details id)))
      ≡ true
new_result-explains r entity_id entity_type status reason details id exc_id now h =
    rw of_row-to_row (simp (eq_refl, h))

module _ (N : Type 0) ⦃env : Env⦄ (r : ReconRun) (entity_id entity_type status : String)
    (reason : Option String) (details : String) where
  -- What holds once the result is inserted: the exception of a break would be explained.
  abbrev Explained : Tables N → Type 0
  Explained t =
      IsTraced t
      × ((id : String) (now : Time)
          → (status == status_break) ≡ true
          → has_result (new_exception r entity_id entity_type (code_or_empty reason) id now)
              t.recon_results
            ≡ true)

  result-Leads :
      (id : String)
      → Leads IsTraced Explained
          (insert_recon_result (new_result r entity_id entity_type status reason details id))
  unfolding insert_recon_result
  result-Leads id = Leads-on_error _ _ (
      Leads-execute _ (λ t h. (
        traced-grows t.recon_results _ t.exceptions h,
        λ exc_id now b.
            has_result-append_self
              (new_exception r entity_id entity_type (code_or_empty reason) exc_id now)
              t.recon_results _
              (new_result-explains r entity_id entity_type status reason details id exc_id now b),
      )))

  Explained-edges : (a b c d e : String) → Keeps Explained (insert_lineage_edge a b c d e)
  unfolding insert_lineage_edge
  Explained-edges a b c d e = Keeps-on_error _ _ (Keeps-execute _ (λ t h. h))

  Explained-events : (a b c d : String) → Keeps Explained (insert_exception_event a b c d)
  unfolding insert_exception_event
  Explained-events a b c d = Keeps-on_error _ _ (Keeps-execute _ (λ t h. h))

  Explained-exception :
      (status == status_break) ≡ true
      → (id : String) (now : Time)
      → Keeps Explained
          (insert_exception (new_exception r entity_id entity_type (code_or_empty reason) id now))
  unfolding insert_exception
  Explained-exception b id now = Keeps-on_error _ _ (
      Keeps-execute _ (λ t h. (
        All-snoc (λ e. has_result e t.recon_results ≡ true) t.exceptions _ h.0 (h.1 id now b),
        h.1,
      )))

  IsTraced-kept :
      Keeps IsTraced (persist_result {N = N} r entity_id entity_type status reason details)
  unfolding persist_result
  IsTraced-kept = Keeps-bind _ _ Keeps-generate_id λ id.
      Leads-bind _ _ (Leads-on_error _ _ (result-Leads id))
        (λ _. Keeps-bind _ _ (Keeps-attempt _ (Explained-edges _ _ _ _ _)) (λ _.
          raise_break-Keeps Explained-edges Explained-events r entity_id entity_type
            (status == status_break) reason id Explained-exception))
        (λ t h. h.0)

IsTraced-RunsKept : {N : Type 0} ⦃env : Env⦄ → RunsKept (IsTraced {N = N})
unfolding update_recon_run_status
IsTraced-RunsKept id status now = Keeps-on_error _ _ (Keeps-execute _ (λ t h. h))

module _ {N : Type 0} ⦃f : Float64 N⦄ ⦃env : Env⦄ (config : ReconConfig N) (id : String)
    (w : World N) where
  -- If each exception has a BREAK result of its run, record and reason, then so it is after a run,
  -- whatever calls of the database fail: an exception is only written behind its result.
  pub run-IsTraced : IsTraced w.tables → IsTraced (run config id w).1.tables
  run-IsTraced h =
      (run-Keeps (λ r i ty st reason d _. IsTraced-kept N r i ty st reason d) IsTraced-RunsKept
          config id).at
        w h
