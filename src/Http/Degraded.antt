-- ===== src/Http/Degraded.antt =====
-- internal/http without a store, as NewServer is called when there is no database.
use trust_lot.Prelude.{ℕ, String, true, false, ◌==◌, ◌≡◌, inl, inr, refl, Bool-cases, if◌then◌else◌}
use trust_lot.Platform.{Float64, Env}
use trust_lot.Db.Exec.{World}
use trust_lot.Lineage.Graph.{MapOrder}
use trust_lot.Http.Messages.{Request, Numerals, Reply, written, panicked, new_server}
use trust_lot.Http.Routes.{
  Endpoint, get_health, list_exceptions, get_exception, get_explanation, list_recon_runs,
  list_trust_scores, trust_score_for_recon_result, trust_score_for_exception, lineage_for_entity,
  lineage_for_exception, list_replay_cases, get_replay_case, create_replay_case_from_exception,
  run_replay_case, Dispatch, routed, missed, Mux, routes, handle, respond, cors_middleware, serve,
}

-- The status of a server without a store: the lists and the health are served from what the server
-- has, one exception is one of them, and all else is refused.
abbrev pub status_without_store : Endpoint → ℕ
status_without_store get_health = 200
status_without_store list_exceptions = 200
status_without_store get_exception = 200
status_without_store list_recon_runs = 200
status_without_store list_trust_scores = 200
status_without_store list_replay_cases = 200
status_without_store get_explanation = 503
status_without_store trust_score_for_recon_result = 503
status_without_store trust_score_for_exception = 503
status_without_store lineage_for_entity = 503
status_without_store lineage_for_exception = 503
status_without_store get_replay_case = 503
status_without_store create_replay_case_from_exception = 503
status_without_store run_replay_case = 503

-- 204 for the method OPTIONS; else chi's own answer, or the status of the route that it picks.
abbrev pub status_of : Request → Dispatch → ℕ
status_of r (routed route param) =
    if r.method == "OPTIONS" then 204 else status_without_store route.endpoint
status_of r (missed status) = if r.method == "OPTIONS" then 204 else status

abbrev pub HasStatus : {N : Type 0} → ℕ → Reply N → Type 0
HasStatus expected (written status body) = status ≡ expected
HasStatus expected panicked = ⊥

-- The world is as before and the reply has this status.
abbrev pub Idle : {N : Type 0} → World N → ℕ → Reply N × World N → Type 0
Idle w expected (reply, w') = (w' ≡ w) × HasStatus expected reply

status_of_options :
    (r : Request) (d : Dispatch) → r.method == "OPTIONS" ≡ true → status_of r d ≡ 204
status_of_options r (routed route param) h = rw h refl
status_of_options r (missed status) h = rw h refl

module _ {N : Type 0} ⦃f : Float64 N⦄ ⦃env : Env⦄ ⦃o : MapOrder N⦄ ⦃n : Numerals⦄ where
  handle-Idle :
      (r : Request) (e : Endpoint) (param : String → String) (w : World N)
      → Idle w (status_without_store e) (handle (new_server false) r e param w)
  unfolding handle new_server
  handle-Idle r get_health param w = (refl, refl)
  handle-Idle r list_exceptions param w = (refl, refl)
  handle-Idle r get_exception param w = (refl, refl)
  handle-Idle r list_recon_runs param w = (refl, refl)
  handle-Idle r list_trust_scores param w = (refl, refl)
  handle-Idle r list_replay_cases param w = (refl, refl)
  handle-Idle r get_explanation param w = (refl, refl)
  handle-Idle r trust_score_for_recon_result param w = (refl, refl)
  handle-Idle r trust_score_for_exception param w = (refl, refl)
  handle-Idle r lineage_for_entity param w = (refl, refl)
  handle-Idle r lineage_for_exception param w = (refl, refl)
  handle-Idle r get_replay_case param w = (refl, refl)
  handle-Idle r create_replay_case_from_exception param w = (refl, refl)
  handle-Idle r run_replay_case param w = (refl, refl)

  -- Where the method is not OPTIONS.
  respond-Idle :
      (r : Request) (d : Dispatch) (w : World N)
      → (r.method == "OPTIONS") ≡ false
      → Idle w (status_of r d) (respond (new_server false) r d w)
  respond-Idle r (routed route param) w h = rw h (handle-Idle r route.endpoint param w)
  respond-Idle r (missed status) w h = rw h (refl, refl)

  -- Without a store no request reaches the database, draws an id or reads the clock, and none makes
  -- the server panic. The status is 204 for the method OPTIONS; else 200 where chi picks the route of the
  -- health, of a list or of one exception, 503 where it picks any other route, and chi's own status where
  -- it picks none.
  pub serve_degraded :
      (m : Mux) (r : Request) (w : World N)
      → Idle w (status_of r (m.dispatch routes r)) (serve ⦃m = m⦄ false r w)
  unfolding serve cors_middleware
  serve_degraded m r w = elim (Bool-cases (r.method == "OPTIONS")) [
    | inl e ↦ rw (status_of_options r (m.dispatch routes r) e, e, serve) (refl, refl)
    | inr e ↦ rw (e, serve) (respond-Idle r (m.dispatch routes r) w e)
  ]
