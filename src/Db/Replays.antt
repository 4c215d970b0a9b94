-- ===== src/Db/Replays.antt =====
-- internal/db/store.go: the queries on replay_cases.
use trust_lot.Prelude.{String, List, [], ◌∷◌, ◌++◌, ◌==◌, find, update, ltb, sort_by}
use trust_lot.Platform.{Env}
use trust_lot.Db.Tables.{ReplayCaseRow}
use trust_lot.Db.Exec.{stored_time, Exec, ok, query, execute, row, with_context, on_error}
use trust_lot.Db.Recon.{not_found}

-- A case as the database keeps it.
abbrev pub kept_case : {N : Type 0} → ReplayCaseRow N → ReplayCaseRow N
kept_case rc = record rc { created_at = stored_time rc.created_at }

module _ {N : Type 0} ⦃env : Env⦄ where
  unfoldable pub insert_replay_case : ReplayCaseRow N → Exec N (Unit {0})
  insert_replay_case rc =
      with_context "insert replay case"
        (execute λ t. record t { replay_cases = t.replay_cases ++ kept_case rc ∷ [] })

  unfoldable pub get_replay_case : String → Exec N (ReplayCaseRow N)
  get_replay_case id =
      on_error (not_found "replay case" id "get replay case")
        (query λ t. row (find (λ rc. rc.id == id) t.replay_cases))

  -- `ORDER BY created_at DESC`
  unfoldable pub list_replay_cases : Exec N (List (ReplayCaseRow N))
  unfolding sort_by
  list_replay_cases =
      with_context "list replay cases"
        (query λ t. ok (sort_by (λ a b. ltb b.created_at a.created_at) t.replay_cases))

  unfoldable pub update_replay_case_status : String → String → Exec N (Unit {0})
  update_replay_case_status id status = with_context "update replay case status" (
      execute λ t. record t {
        replay_cases =
            update (λ rc. rc.id == id) (λ rc. record rc { status = status }) t.replay_cases;
      })
