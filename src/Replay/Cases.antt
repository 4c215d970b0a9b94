-- ===== src/Replay/Cases.antt =====
-- What internal/replay/service.go leaves of a case that it captures or runs, where the database serves
-- every call.
use trust_lot.Prelude.{
  String, Bool, true, false, Option, none, some, ◌&&◌, not, eq_iff, ap, ◌∙◌, ◌≢◌, ◌↔◌,
  if◌then◌else◌, List, [], ◌∷◌, ◌++◌, map, concat, suc, ◌==◌, eq_refl, ◌≡◌, refl, arith, find,
  update,
}
use trust_lot.Platform.{Float64, Env, IsHealthy}
use trust_lot.Model.{ReconRun, ReconResult, Exception}
use trust_lot.Db.Tables.{Json, ReplayCaseRow, config_json}
use trust_lot.Db.Exec.{
  Result, ok, World, pure, on_error, query, execute, attempt, generate_id, time_now, ◌>>=◌,
}
use trust_lot.Db.Replays.{get_replay_case, update_replay_case_status}
use trust_lot.Recon.Rules.{default_config}
use trust_lot.Replay.Snapshots.{marshal_config, replay_from_snapshots, replay_pair}
use trust_lot.Replay.Assess.{ReplayRunResult, assess, assess_iff, new_status, reason_text}
use trust_lot.Db.Recon.{of_row, get_recon_run, get_recon_result_for_exception}
use trust_lot.Db.Exceptions.{get_exception}
use trust_lot.Db.Replays.{kept_case, insert_replay_case}
use trust_lot.Replay.Service.{run_case, create_case_from_exception, load_record_pair, row_to_case}

-- The status that a run leaves, from the two statuses alone.
assess-status :
    {N : Type 0} (id : String) (row : ReplayCaseRow N) (actual : String) (rc : Option String)
    → new_status (assess id row (actual, rc)) ≡ (
        if actual == "BREAK" && not (row.expected_match_status == "BREAK")
        then "failing"
        else "passing")
unfolding new_status assess
assess-status id row actual rc = ground (arith, eq_iff actual row.expected_match_status)

module _ {N : Type 0} ⦃f : Float64 N⦄ ⦃env : Env⦄ where
  -- RunCase returns the assessment of the replay and stores the status that it gives.
  run_case-assessed :
      IsHealthy env
      → (id : String) (w : World N) (row : ReplayCaseRow N) (actual : String × Option String)
      → find (λ rc. rc.id == id) w.tables.replay_cases ≡ some row
      → replay_from_snapshots row ≡ ok actual
      → let r = assess id row actual in
        ((run_case id w).0 ≡ ok r)
        × ((run_case id w).1.tables ≡ record w.tables {
          replay_cases =
              update
                (λ rc. rc.id == id)
                (λ rc. record rc { status = new_status r })
                w.tables.replay_cases;
        })
  unfolding run_case get_replay_case update_replay_case_status query execute attempt on_error pure
      ◌>>=◌
  run_case-assessed healthy id w row actual found replayed =
      simp (healthy, found, replayed) (refl, refl)

  -- Where the database serves every call, the case is found and its snapshots can be replayed, RunCase
  -- reports the status and the reason of the replay beside the expected ones. The replay is unchanged
  -- just where both are the expected ones, a regression just where a case that was no break is one, and
  -- an improvement just where a break is none. The only change of the database is the status of the case:
  -- failing where the replay is a break and the case was none, else passing.
  pub run_case-reports :
      IsHealthy env
      → (id : String) (w : World N) (row : ReplayCaseRow N) (actual : String × Option String)
      → find (λ rc. rc.id == id) w.tables.replay_cases ≡ some row
      → replay_from_snapshots row ≡ ok actual
      → (r : ReplayRunResult) × ((run_case id w).0 ≡ ok r)
        × (r.case_id ≡ id)
        × (r.actual_match_status ≡ actual.0)
        × (r.actual_reason_code ≡ reason_text actual.1)
        × (r.expected_match_status ≡ row.expected_match_status)
        × (r.expected_reason_code ≡ row.expected_reason_code)
        × ((r.changed ≡ false) ↔ (
            (actual.0 ≡ row.expected_match_status)
            × (reason_text actual.1 ≡ row.expected_reason_code)))
        × ((r.regression ≡ true) ↔ ((row.expected_match_status ≢ "BREAK") × (actual.0 ≡ "BREAK")))
        × ((r.improvement ≡ true) ↔ ((row.expected_match_status ≡ "BREAK") × (actual.0 ≢ "BREAK")))
        × ((run_case id w).1.tables ≡ record w.tables {
          replay_cases =
              update
                (λ rc. rc.id == id)
                (λ rc. record rc {
                  status =
                      if actual.0 == "BREAK" && not (row.expected_match_status == "BREAK")
                      then "failing"
                      else "passing";
                })
                w.tables.replay_cases;
        })
  unfolding assess
  run_case-reports healthy id w row actual found replayed =
      let (reported, stored) = run_case-assessed healthy id w row actual found replayed in
      let (same, worse, better, never_both, failing) = assess_iff id row actual.0 actual.1 in
      (
        assess id row actual,
        reported,
        refl,
        refl,
        refl,
        refl,
        refl,
        same,
        worse,
        better,
        stored
            ∙ ap
                (λ s. record w.tables {
                  replay_cases =
                      update (λ rc. rc.id == id) (λ rc. record rc { status = s })
                        w.tables.replay_cases;
                })
                (assess-status id row actual.0 actual.1),
      )

find-append :
    {A : Type 0} (p : A → Bool) (xs : List A) (x : A)
    → find p xs ≡ none
    → p x ≡ true
    → find p (xs ++ x ∷ []) ≡ some x
find-append p [] x h e = rw e refl
find-append p (y ∷ xs) x h e = ground (arith, find-append p xs x)

abbrev pub is_exception_result : Exception → ReconResult → Bool
is_exception_result e r =
    r.run_id == e.recon_run_id && r.entity_type == e.entity_type && r.entity_id == e.entity_id

module _ {N : Type 0} ⦃f : Float64 N⦄ ⦃env : Env⦄ where
  -- The case captured from an exception whose pair is marshalled.
  abbrev captured : Exception → ReconResult → Json N × Json N → World N → ReplayCaseRow N
  captured e r snapshots w = record {
    id = env.fresh_id w.ids;
    description =
        concat
          ("Captured from exception " ∷ e.id ∷ ": " ∷ e.reason_code ∷ " on " ∷ e.entity_type ∷ []);
    status = "pending";
    source_exception_id = some e.id;
    entity_type = e.entity_type;
    expected_match_status = r.status;
    expected_reason_code = r.reason_code;
    internal_snapshot = some snapshots.0;
    custodian_snapshot = some snapshots.1;
    config_snapshot = some (config_json default_config);
    created_at = env.now w.ticks;
  }

  abbrev after_capture : ReplayCaseRow N → World N → World N
  after_capture row w = record {
    tables = record w.tables { replay_cases = w.tables.replay_cases ++ kept_case row ∷ [] };
    calls = suc (suc (suc (suc (suc (suc w.calls)))));
    ids = suc w.ids;
    ticks = suc w.ticks;
  }

  -- The world once the exception, its result and its run are loaded, and once the pair is.
  abbrev pub at_pair : World N → World N
  at_pair w = record w { calls = suc (suc (suc w.calls)) }

  abbrev pub past_pair : World N → World N
  past_pair w = record w { calls = suc (suc (suc (suc (suc w.calls)))) }

  -- What the database serves is an exception with its result and its run, and a pair of records.
  module _ (healthy : IsHealthy env) (w : World N) (id : String) (e : Exception) (r : ReconResult)
      (run : ReconRun) (snapshots : Json N × Json N)
      (e_found : find (λ x. x.id == id) w.tables.exceptions ≡ some e)
      (r_found : find (is_exception_result e) (map of_row w.tables.recon_results) ≡ some r)
      (run_found : find (λ x. x.id == e.recon_run_id) w.tables.recon_runs ≡ some run)
      (loaded : load_record_pair e run (at_pair w) ≡ (ok snapshots, past_pair w))
      (c_finite : (f.finite f.zero ≡ true) × (f.finite f.cent ≡ true)) where
    create-captures :
        create_case_from_exception id w
        ≡ (ok (row_to_case (captured e r snapshots w)), after_capture (captured e r snapshots w) w)
    unfolding create_case_from_exception get_exception get_recon_result_for_exception get_recon_run
        insert_replay_case marshal_config default_config query execute on_error generate_id time_now
        pure ◌>>=◌
    create-captures = simp (healthy, e_found, r_found, run_found, loaded, c_finite.0, c_finite.1)

    -- The new case is found and replayed.
    pub captured-run :
        (actual : String × Option String)
        → find (λ x. x.id == env.fresh_id w.ids) w.tables.replay_cases ≡ none
        → replay_pair e.entity_type snapshots.0 snapshots.1 (some (config_json default_config))
          ≡ ok actual
        → actual.0 ≡ r.status
        → reason_text actual.1 ≡ r.reason_code
        → let out : Result ReplayRunResult × World N =
            (create_case_from_exception id >>= λ c. run_case c.id) w in
          (report : ReplayRunResult) × (out.0 ≡ ok report) × (report.changed ≡ false)
    unfolding ◌>>=◌ row_to_case replay_from_snapshots
    captured-run actual fresh replayed st rs =
        let row = captured e r snapshots w in
        let ran =
          run_case-assessed healthy row.id (after_capture row w) (kept_case row) actual
            (find-append (λ x. x.id == row.id) w.tables.replay_cases (kept_case row) fresh
              (eq_refl row.id))
            replayed in
        (
          assess row.id (kept_case row) actual,
          rw create-captures ran.0,
          (assess_iff row.id (kept_case row) actual.0 actual.1).0.1 (st, rs),
        )
