-- ===== src/System/Replays.antt =====
-- Replay cases of internal/replay over the runs and requests that come between two replays.
use trust_lot.Prelude.{
  suc, String, Bool, false, Option, none, some, List, [], ◌∷◌, ◌++◌, ◌==◌, find, update, ◌≡◌, refl,
  sym, ap, ◌∙◌, ◌⊎◌, arith, Bool-cases, inl, inr, if◌then◌else◌,
}
use mathlib.Core.Option.{some-injective}
use trust_lot.Platform.{Float64, Env}
use trust_lot.Db.Tables.{Tables, ReplayCaseRow, ReconConfig, Json}
use trust_lot.Db.Exec.{
  Result, ok, err, wrap, World, pure, raise, on_error, query, attempt, with_context, ◌>>=◌,
}
use trust_lot.Db.Keeps.{Keeps, Keeps-on_error, Keeps-execute}
use trust_lot.Db.Replays.{kept_case, get_replay_case, insert_replay_case, update_replay_case_status}
use trust_lot.Recon.Engine.{run}
use trust_lot.Recon.Safety.{run-IsInput}
use trust_lot.Replay.Snapshots.{replay_present, replay_from_snapshots}
use trust_lot.Replay.Assess.{ReplayRunResult, assess}
use trust_lot.Replay.Service.{run_case}
use trust_lot.Lineage.Graph.{MapOrder}
use trust_lot.Http.Messages.{Numerals}
use trust_lot.Http.Routes.{Mux, IsMux}
use trust_lot.Http.Upheld.{ScoresKept}
use trust_lot.Http.Safety.{scores_kept}
use trust_lot.System.Steps.{Reaches, Reaches-keeps}

module _ {N : Type 0} where
  -- The case with this id, but for its status.
  abbrev but_status : ReplayCaseRow N → ReplayCaseRow N
  but_status row = record row { status = "" }

  record IsCase (id : String) (row : ReplayCaseRow N) (t : Tables N) : Type 0 where
    now : ReplayCaseRow N
    found : find (λ rc. rc.id == id) t.replay_cases ≡ some now
    same : but_status now ≡ but_status row

find_append_found :
    {A : Type 0} (p : A → Bool) (xs ys : List A) (x : A)
    → find p xs ≡ some x
    → find p (xs ++ ys) ≡ some x
find_append_found p [] ys x h = absurd (ground arith)
find_append_found p (y ∷ xs) ys x h = ground (arith, find_append_found p xs ys x)

-- An update finds the element, changed or not.
find-update :
    {A : Type 0} (p q : A → Bool) (g : A → A)
    → ((a : A) → p (g a) ≡ p a)
    → (xs : List A) (x : A) → find p xs ≡ some x
    → (x' : A) × (find p (update q g xs) ≡ some x') × ((x' ≡ x) ⊎ (x' ≡ g x))
find-update p q g k [] x h = absurd (ground arith)
find-update p q g k (y ∷ xs) x h = elim (Bool-cases (p y)) [
  | inl e ↦
      let same : y ≡ x = some-injective _ _ (rw e at h) in
      elim (Bool-cases (q y)) [
        | inl b ↦ (g y, simp (b, k y, e), inr (ap g same))
        | inr b ↦ (y, simp (b, e), inl same)
      ]
  | inr e ↦
      let (x', found, why) = find-update p q g k xs x (rw e at h) in
      let skipped : p (if q y then g y else y) ≡ false = ground (arith, k y) in
      (x', simp (skipped, found), why)
]

module _ {N : Type 0} ⦃env : Env⦄ (id : String) (row : ReplayCaseRow N) where
  IsCase-ScoresKept : ScoresKept (IsCase id row)
  IsCase-ScoresKept =
      scores_kept (IsCase id row) (λ t xs h. record { now = h.now; found = h.found; same = h.same })

  inserted-IsCase : (rc : ReplayCaseRow N) → Keeps (IsCase id row) (insert_replay_case rc)
  unfolding insert_replay_case
  inserted-IsCase rc = Keeps-on_error _ _ (
      Keeps-execute _ (λ t h. record {
        now = h.now;
        found =
            find_append_found (λ x. x.id == id) t.replay_cases (kept_case rc ∷ []) h.now h.found;
        same = h.same;
      }))

  status_set :
      (status : String) (old new : ReplayCaseRow N)
      → (new ≡ old) ⊎ (new ≡ record old { status = status })
      → but_status old ≡ but_status row
      → but_status new ≡ but_status row
  status_set status old new (inl e) h = ap but_status e ∙ h
  status_set status old new (inr e) h = ap but_status e ∙ h

  updated-IsCase :
      (other status : String) → Keeps (IsCase id row) (update_replay_case_status other status)
  unfolding update_replay_case_status
  updated-IsCase other status = Keeps-on_error _ _ (
      Keeps-execute _ (λ t h.
        let (now, found, why) =
          find-update (λ x. x.id == id) (λ x. x.id == other) (λ x. record x { status = status })
            (λ x. refl) t.replay_cases h.now h.found in
        record { now = now; found = found; same = status_set status h.now now why h.same }))

  run-IsCase :
      ⦃f : Float64 N⦄ (config : ReconConfig N) (run_id : String)
      → Keeps (IsCase id row) (run config run_id)
  run-IsCase config run_id = record {
    at = λ w h. record {
      now = h.now;
      found = ap (find (λ x. x.id == id)) (run-IsInput config run_id w).replay_cases ∙ h.found;
      same = h.same;
    };
  }

module _ {N : Type 0} ⦃f : Float64 N⦄ where
  -- What RunCase returns where the case is loaded.
  abbrev outcome :
      String → ReplayCaseRow N → Result (String × Option String) → Result ReplayRunResult
  outcome id row (ok actual) = ok (assess id row actual)
  outcome id row (err e) = err (wrap "replay execution" e)

  -- The status of a case is no part of what is replayed.
  replay-but_status :
      (row : ReplayCaseRow N) → replay_from_snapshots row ≡ replay_from_snapshots (but_status row)
  unfolding replay_from_snapshots
  replay-but_status row = present row row.internal_snapshot row.custodian_snapshot
    where
      present :
          (row : ReplayCaseRow N) (i c : Option (Json N))
          → replay_present row i c ≡ replay_present (but_status row) i c
      present row none c = refl
      present row (some i) none = refl
      present row (some i) (some c) = refl

  outcome-but_status :
      (id : String) (row : ReplayCaseRow N) (r : Result (String × Option String))
      → outcome id row r ≡ outcome id (but_status row) r
  unfolding assess
  outcome-but_status id row (ok actual) = refl
  outcome-but_status id row (err e) = refl

  abbrev report : String → ReplayCaseRow N → Result ReplayRunResult
  report id row = outcome id row (replay_from_snapshots row)

  report-but_status :
      (id : String) (row : ReplayCaseRow N) → report id row ≡ report id (but_status row)
  report-but_status id row =
      outcome-but_status id row (replay_from_snapshots row)
      ∙ ap (outcome id (but_status row)) (replay-but_status row)

  module _ ⦃env : Env⦄ where
    case-loaded :
        (id : String) (w : World N) (row : ReplayCaseRow N)
        → env.fault w.calls ≡ none
        → find (λ rc. rc.id == id) w.tables.replay_cases ≡ some row
        → with_context "load replay case" (get_replay_case id) w
          ≡ (ok row, record w { calls = suc w.calls })
    unfolding get_replay_case on_error query
    case-loaded id w row served found = simp (served, found)

    run_case-outcome :
        (id : String) (w : World N) (row : ReplayCaseRow N) (r : Result (String × Option String))
        → env.fault w.calls ≡ none
        → find (λ rc. rc.id == id) w.tables.replay_cases ≡ some row
        → replay_from_snapshots row ≡ r
        → (run_case id w).0 ≡ outcome id row r
    unfolding run_case on_error attempt pure raise ◌>>=◌
    run_case-outcome id w row (ok actual) served found e =
        simp (case-loaded id w row served found, e)
    run_case-outcome id w row (err x) served found e = simp (case-loaded id w row served found, e)

module _ {N : Type 0} ⦃f : Float64 N⦄ ⦃env : Env⦄ ⦃o : MapOrder N⦄ ⦃n : Numerals⦄ (m : Mux)
    (is_mux : IsMux m) (config : ReconConfig N) where
  reached-IsCase :
      (v w : World N) (id : String) (row : ReplayCaseRow N)
      → Reaches m config v w
      → find (λ rc. rc.id == id) v.tables.replay_cases ≡ some row
      → IsCase id row w.tables
  reached-IsCase v w id row s found =
      Reaches-keeps m is_mux config (IsCase id row) (run-IsCase id row config)
        (IsCase-ScoresKept id row) (inserted-IsCase id row, updated-IsCase id row) v w s
        (record { now = row; found = found; same = refl })

  -- A replay is reproducible. From a database that holds the case, whatever runs of the engine and
  -- requests (captures and replays among them) come in between, and whatever calls of the
  -- database fail in them, RunCase answers as it would have at the start, report or error alike, where
  -- the database serves its load of the case both times and chi picks a route of the table for the
  -- request's method or answers 404 or 405.
  pub reached-run_case :
      (v w : World N) (id : String) (row : ReplayCaseRow N)
      → Reaches m config v w
      → find (λ rc. rc.id == id) v.tables.replay_cases ≡ some row
      → env.fault v.calls ≡ none
      → env.fault w.calls ≡ none
      → (run_case id w).0 ≡ (run_case id v).0
  reached-run_case v w id row s found served_v served_w =
      let later = reached-IsCase v w id row s found in
      run_case-outcome id w later.now _ served_w later.found refl
      ∙ (report-but_status id later.now
          ∙ (ap (report id) later.same
              ∙ (sym (report-but_status id row)
                  ∙ sym (run_case-outcome id v row _ served_v found refl))))
