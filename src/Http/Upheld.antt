-- ===== src/Http/Upheld.antt =====
-- What the handlers of internal/http keep of the tables, from what the writes keep.
use mathlib.Core.List.{Memᴰ}
use trust_lot.Prelude.{
  ℕ, String, Bool, true, false, List, ◌==◌, eq_iff, ◌≡◌, refl, sym, subst, ◌∙◌, arith, All,
  if◌then◌else◌,
}
use trust_lot.Platform.{Float64, Env}
use trust_lot.Db.Tables.{Tables, TrustScoreRow, ReplayCaseRow}
use trust_lot.Db.Exec.{Error, World, Exec}
use trust_lot.Db.Keeps.{Keeps}
use trust_lot.Db.Scores.{upsert_trust_score}
use trust_lot.Db.Replays.{insert_replay_case, update_replay_case_status}
use trust_lot.Lineage.Graph.{MapOrder}
use trust_lot.Http.Messages.{
  Request, Numerals, query_int, Body, Reply, Handler, write_json, write_by_router, answer, Server,
}
use trust_lot.Http.Handlers.{
  handle_health, handle_list_exceptions, handle_get_exception, handle_list_recon_runs,
  handle_list_trust_scores, handle_list_replay_cases, handle_get_explanation,
  handle_trust_score_for_recon_result, handle_trust_score_for_exception, handle_lineage_for_entity,
  handle_lineage_for_exception, handle_get_replay_case, handle_create_replay_case_from_exception,
  handle_run_replay_case,
}
use trust_lot.Http.Routes.{
  Endpoint, get_health, list_exceptions, get_exception, get_explanation, list_recon_runs,
  list_trust_scores, trust_score_for_recon_result, trust_score_for_exception, lineage_for_entity,
  lineage_for_exception, list_replay_cases, get_replay_case, create_replay_case_from_exception,
  run_replay_case, Route, Dispatch, routed, missed, IsRouted, routes, handle, respond,
}
use trust_lot.Http.Reads.{
  ping-Keeps, list_exceptions-Keeps, get_exception-Keeps, list_recon_runs-Keeps,
  explain_exception-Keeps, get_lineage_for_entity-Keeps, get_lineage_for_exception-Keeps,
}
use trust_lot.Http.Writes.{
  compute_for_recon_result-Keeps, compute_for_exception-Keeps, list_scores-Keeps, list_cases-Keeps,
  get_case-Keeps, create_case-Keeps, run_case-Keeps,
}

-- The endpoints that write scores, and those that write replay cases.
abbrev pub scores : Endpoint → Bool
scores Endpoint.trust_score_for_recon_result = true
scores Endpoint.trust_score_for_exception = true
scores e = false

abbrev pub posts : Endpoint → Bool
posts Endpoint.create_replay_case_from_exception = true
posts Endpoint.run_replay_case = true
posts e = false

pub record Upholds {N : Type 0} (P : Tables N → Type 0) (h : Handler N) : Type 0 where
  pub at : (w : World N) → P w.tables → P (h w).1.tables

abbrev pub ScoresKept : {N : Type 0} → (Tables N → Type 0) → ⦃env : Env⦄ → Type 0
ScoresKept P = (ts : TrustScoreRow) → Keeps P (upsert_trust_score ts)

abbrev pub CasesKept : {N : Type 0} → (Tables N → Type 0) → ⦃env : Env⦄ → Type 0
CasesKept {N = N} P =
    ((rc : ReplayCaseRow N) → Keeps P (insert_replay_case rc))
    × ((id status : String) → Keeps P (update_replay_case_status id status))

module _ {N : Type 0} {P : Tables N → Type 0} where
  Upholds-write_by_router : (status : ℕ) → Upholds P (write_by_router status)
  Upholds-write_by_router status = record { at = λ w h. h }

  -- An action where the service is there.
  Upholds-answer :
      {A : Type 0} (b : Bool) (m : Exec N A) (failed : Error → Reply N) (found : A → Reply N)
      (status : ℕ) (body : Body N)
      → Keeps P m
      → Upholds P (if b then answer m failed found else write_json status body)
  unfolding answer
  Upholds-answer true m failed found status body k = record { at = k.at }
  Upholds-answer false m failed found status body k = record { at = λ w h. h }

module _ {N : Type 0} {P : Tables N → Type 0} ⦃f : Float64 N⦄ ⦃env : Env⦄ ⦃o : MapOrder N⦄
    ⦃n : Numerals⦄ (s : Server) (r : Request) (param : String → String) where
  pub handle-Upholds :
      (e : Endpoint)
      → (scores e ≡ true → ScoresKept P)
      → (posts e ≡ true → CasesKept P)
      → Upholds P (handle s r e param)
  unfolding handle handle_health handle_list_exceptions handle_get_exception handle_get_explanation
      handle_list_recon_runs handle_list_trust_scores handle_trust_score_for_recon_result
      handle_trust_score_for_exception handle_lineage_for_entity handle_lineage_for_exception
      handle_list_replay_cases handle_get_replay_case handle_create_replay_case_from_exception
      handle_run_replay_case
  handle-Upholds get_health k l = Upholds-answer s.store _ _ _ _ _ ping-Keeps
  handle-Upholds list_exceptions k l =
      Upholds-answer s.store _ _ _ _ _
        (list_exceptions-Keeps (r.query "status") (query_int r "limit" 100))
  handle-Upholds get_exception k l =
      Upholds-answer s.store _ _ _ _ _ (get_exception-Keeps (param "id"))
  handle-Upholds get_explanation k l =
      Upholds-answer s.explainer _ _ _ _ _ (explain_exception-Keeps (param "id"))
  handle-Upholds list_recon_runs k l =
      Upholds-answer s.store _ _ _ _ _ (list_recon_runs-Keeps (query_int r "limit" 50))
  handle-Upholds list_trust_scores k l =
      Upholds-answer s.truster _ _ _ _ _ (list_scores-Keeps (query_int r "limit" 100))
  handle-Upholds trust_score_for_recon_result k l =
      Upholds-answer s.truster _ _ _ _ _ (compute_for_recon_result-Keeps (k refl) (param "id"))
  handle-Upholds trust_score_for_exception k l =
      Upholds-answer s.truster _ _ _ _ _ (compute_for_exception-Keeps (k refl) (param "id"))
  handle-Upholds lineage_for_entity k l =
      Upholds-answer s.liner _ _ _ _ _
        (get_lineage_for_entity-Keeps (param "entityType") (param "id"))
  handle-Upholds lineage_for_exception k l =
      Upholds-answer s.liner _ _ _ _ _ (get_lineage_for_exception-Keeps (param "id"))
  handle-Upholds list_replay_cases k l = Upholds-answer s.replayer _ _ _ _ _ list_cases-Keeps
  handle-Upholds get_replay_case k l =
      Upholds-answer s.replayer _ _ _ _ _ (get_case-Keeps (param "id"))
  handle-Upholds create_replay_case_from_exception k l =
      Upholds-answer s.replayer _ _ _ _ _ (create_case-Keeps (l refl).0 (param "id"))
  handle-Upholds run_replay_case k l =
      Upholds-answer s.replayer _ _ _ _ _ (run_case-Keeps (l refl).1 (param "id"))

All-mem : {A : Type 0} (P : A → Type 0) (x : A) (xs : List A) → Memᴰ x xs → All P xs → P x
All-mem P x _ (Memᴰ.head e) h = subst P (sym e) h.0
All-mem P x _ (Memᴰ.tail {xs = xs} m) h = All-mem P x xs m h.1

-- The routes of the endpoints that write replay cases want POST.
post_wanted :
    (route : Route) → Memᴰ route routes → posts route.endpoint ≡ true → route.method ≡ "POST"
unfolding routes
post_wanted route m h = ground (
  arith,
  eq_iff route.method "POST",
  All-mem (λ x. posts x.endpoint ≡ (x.method == "POST")) route routes m
      (
        refl,
        (
          refl,
          (
            refl,
            (
              refl,
              (refl, (refl, (refl, (refl, (refl, (refl, (refl, (refl, (refl, (refl, tt)))))))))),
            ),
          ),
        ),
      ),
)

module _ {N : Type 0} {P : Tables N → Type 0} ⦃f : Float64 N⦄ ⦃env : Env⦄ ⦃o : MapOrder N⦄
    ⦃n : Numerals⦄ (s : Server) (r : Request) where
  pub respond-Upholds :
      (d : Dispatch)
      → ScoresKept P
      → (r.method ≡ "POST" → CasesKept P)
      → IsRouted routes r d
      → Upholds P (respond s r d)
  respond-Upholds (routed route param) k l h =
      handle-Upholds s r param route.endpoint (λ _. k) (λ e. l (sym h.1 ∙ post_wanted route h.0 e))
  respond-Upholds (missed status) k l h = Upholds-write_by_router status
