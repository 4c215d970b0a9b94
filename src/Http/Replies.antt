-- ===== src/Http/Replies.antt =====
-- The status and the body of the replies of internal/http.
use trust_lot.Prelude.{
  String, Bool, true, false, Option, none, some, ◌==◌, ◌≡◌, ◌≢◌, ◌⊎◌, inl, inr, refl, ap, ◌∙◌,
  Bool-cases, All, if◌then◌else◌,
}
use trust_lot.Platform.{Float64, Env}
use trust_lot.Db.Exec.{Error, Result, ok, err, World, Exec}
use trust_lot.Db.Ping.{ping}
use trust_lot.Db.Recon
use trust_lot.Db.Exceptions
use trust_lot.Trust.Service.{list_scores, compute_for_recon_result, compute_for_exception}
use trust_lot.Replay.Service.{list_cases, get_case, create_case_from_exception, run_case}
use trust_lot.Lineage.Service.{get_lineage_for_entity, get_lineage_for_exception}
use trust_lot.Explain.Report.{Explanation}
use trust_lot.Explain.Answers.{fits}
use trust_lot.Explain.Service.{explain_exception}
use trust_lot.Explain.Panics.{explain_exception-answers}
use trust_lot.Lineage.Graph.{MapOrder}
use trust_lot.Http.Messages.{
  Request, Numerals, query_int, error, no_body, by_router, Reply, written, panicked, Handler,
  reply_to, answer, Server, new_server,
}
use trust_lot.Http.Handlers.{
  explained, handle_health, handle_list_exceptions, handle_get_exception, handle_list_recon_runs,
  handle_list_trust_scores, handle_list_replay_cases, handle_get_explanation,
  handle_trust_score_for_recon_result, handle_trust_score_for_exception, handle_lineage_for_entity,
  handle_lineage_for_exception, handle_get_replay_case, handle_create_replay_case_from_exception,
  handle_run_replay_case,
}
use trust_lot.Http.Routes.{
  Endpoint, get_health, list_exceptions, get_exception, get_explanation, list_recon_runs,
  list_trust_scores, trust_score_for_recon_result, trust_score_for_exception, lineage_for_entity,
  lineage_for_exception, list_replay_cases, get_replay_case, create_replay_case_from_exception,
  run_replay_case, Dispatch, routed, missed, Mux, IsMux, IsRouted, routes, handle, respond,
  cors_middleware, serve,
}

-- A reply that a handler, the middleware or chi writes: the status tells an error's text, an empty
-- body and a value apart.
abbrev pub IsReply : {N : Type 0} → Reply N → Type 0
IsReply panicked = ⊥
IsReply (written status (error s)) =
    (status ≡ 400) ⊎ (status ≡ 404) ⊎ (status ≡ 500) ⊎ (status ≡ 503)
IsReply (written status no_body) = status ≡ 204
IsReply (written status by_router) = (status ≡ 404) ⊎ (status ≡ 405)
IsReply (written status body) = (status ≡ 200) ⊎ (status ≡ 201)

record Replies {N : Type 0} (w : World N) (h : Handler N) : Type 0 where
  at : IsReply (h w).0

module _ {N A : Type 0} where
  reply_to-IsReply :
      (failed : Error → Reply N) (found : A → Reply N) (r : Result A)
      → ((e : Error) → IsReply (failed e))
      → ((a : A) → r ≡ ok a → IsReply (found a))
      → IsReply (reply_to failed found r)
  reply_to-IsReply failed found (ok a) k l = l a refl
  reply_to-IsReply failed found (err e) k l = k e

  -- An action where the service is there, and the handler's other reply.
  answer-Replies :
      (b : Bool) (m : Exec N A) (failed : Error → Reply N) (found : A → Reply N) (h : Handler N)
      (w : World N)
      → ((e : Error) → IsReply (failed e))
      → ((a : A) → (m w).0 ≡ ok a → IsReply (found a))
      → IsReply (h w).0
      → Replies w (if b then answer m failed found else h)
  unfolding answer
  answer-Replies true m failed found h w k l i = record {
    at = reply_to-IsReply failed found (m w).0 k l;
  }
  answer-Replies false m failed found h w k l i = record { at = i }

explained-IsReply : (N : Type 0) (x : Option Explanation) → x ≢ none → IsReply (explained {N = N} x)
explained-IsReply N (some x) h = inl refl
explained-IsReply N none h = h refl

module _ {N : Type 0} ⦃f : Float64 N⦄ ⦃env : Env⦄ ⦃o : MapOrder N⦄ ⦃n : Numerals⦄ (s : Server)
    (r : Request) (param : String → String) (w : World N) where
  handle-Replies :
      (e : Endpoint) → All (λ x. fits x ≡ true) w.tables.exceptions → Replies w (handle s r e param)
  unfolding handle handle_health handle_list_exceptions handle_get_exception handle_get_explanation
      handle_list_recon_runs handle_list_trust_scores handle_trust_score_for_recon_result
      handle_trust_score_for_exception handle_lineage_for_entity handle_lineage_for_exception
      handle_list_replay_cases handle_get_replay_case handle_create_replay_case_from_exception
      handle_run_replay_case
  handle-Replies get_health h =
      answer-Replies s.store ping _ _ _ w (λ x. inl refl) (λ a k. inl refl) (inl refl)
  handle-Replies list_exceptions h =
      answer-Replies s.store
        (Exceptions.list_exceptions (r.query "status") (query_int r "limit" 100)) _ _ _ w
        (λ x. inr (inr (inl refl))) (λ a k. inl refl) (inl refl)
  handle-Replies get_exception h =
      answer-Replies s.store (Exceptions.get_exception (param "id")) _ _ _ w (λ x. inr (inl refl))
        (λ a k. inl refl) (inl refl)
  handle-Replies get_explanation h =
      answer-Replies s.explainer (explain_exception (param "id")) _ _ _ w (λ x. inr (inl refl))
        (λ a k.
          explained-IsReply N a (λ e. explain_exception-answers (param "id") w h (k ∙ ap ok e)))
        (inr (inr (inr refl)))
  handle-Replies list_recon_runs h =
      answer-Replies s.store (Recon.list_recon_runs (query_int r "limit" 50)) _ _ _ w
        (λ x. inr (inr (inl refl))) (λ a k. inl refl) (inl refl)
  handle-Replies list_trust_scores h =
      answer-Replies s.truster (list_scores (query_int r "limit" 100)) _ _ _ w
        (λ x. inr (inr (inl refl))) (λ a k. inl refl) (inl refl)
  handle-Replies trust_score_for_recon_result h =
      answer-Replies s.truster (compute_for_recon_result (param "id")) _ _ _ w (λ x. inr (inl refl))
        (λ a k. inl refl) (inr (inr (inr refl)))
  handle-Replies trust_score_for_exception h =
      answer-Replies s.truster (compute_for_exception (param "id")) _ _ _ w (λ x. inr (inl refl))
        (λ a k. inl refl) (inr (inr (inr refl)))
  handle-Replies lineage_for_entity h =
      answer-Replies s.liner (get_lineage_for_entity (param "entityType") (param "id")) _ _ _ w
        (λ x. inr (inl refl)) (λ a k. inl refl) (inr (inr (inr refl)))
  handle-Replies lineage_for_exception h =
      answer-Replies s.liner (get_lineage_for_exception (param "id")) _ _ _ w (λ x. inr (inl refl))
        (λ a k. inl refl) (inr (inr (inr refl)))
  handle-Replies list_replay_cases h =
      answer-Replies s.replayer list_cases _ _ _ w (λ x. inr (inr (inl refl))) (λ a k. inl refl)
        (inl refl)
  handle-Replies get_replay_case h =
      answer-Replies s.replayer (get_case (param "id")) _ _ _ w (λ x. inr (inl refl))
        (λ a k. inl refl) (inr (inr (inr refl)))
  handle-Replies create_replay_case_from_exception h =
      answer-Replies s.replayer (create_case_from_exception (param "id")) _ _ _ w (λ x. inl refl)
        (λ a k. inr refl) (inr (inr (inr refl)))
  handle-Replies run_replay_case h =
      answer-Replies s.replayer (run_case (param "id")) _ _ _ w (λ x. inl refl) (λ a k. inl refl)
        (inr (inr (inr refl)))

module _ {N : Type 0} ⦃f : Float64 N⦄ ⦃env : Env⦄ ⦃o : MapOrder N⦄ ⦃n : Numerals⦄ (s : Server)
    (r : Request) (w : World N) where
  respond-IsReply :
      (d : Dispatch)
      → IsRouted routes r d
      → All (λ x. fits x ≡ true) w.tables.exceptions
      → IsReply (respond s r d w).0
  respond-IsReply (routed route param) i h = (handle-Replies s r param w route.endpoint h).at
  respond-IsReply (missed status) i h = i

-- If no exception on a position has a reason of transactions, and none on a transaction a reason of
-- positions, then no request makes the server panic, whatever calls of the database fail: a reply with
-- an error's text has the status 400, 404, 500 or 503, one without a body 204, one that chi writes
-- itself 404 or 405, any other 200 or 201, for any chi that picks a route of the table for the
-- request's method or answers 404 or 405.
pub serve-IsReply :
    {N : Type 0} ⦃f : Float64 N⦄ ⦃env : Env⦄ ⦃o : MapOrder N⦄ ⦃n : Numerals⦄ (m : Mux)
    → IsMux m
    → (store : Bool) (r : Request) (w : World N) → All (λ x. fits x ≡ true) w.tables.exceptions
    → IsReply (serve ⦃m = m⦄ store r w).0
unfolding serve cors_middleware
serve-IsReply m is_mux store r w h = elim (Bool-cases (r.method == "OPTIONS")) [
  | inl e ↦ rw (e, serve) refl
  | inr e ↦
      rw (e, serve)
        (respond-IsReply (new_server store) r w (m.dispatch routes r) (is_mux.in_table routes r) h)
]
