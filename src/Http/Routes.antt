-- ===== src/Http/Routes.antt =====
-- internal/http/routes.go, middleware.go and server.go: the table of routes, and how a request comes
-- to its handler. chi, which picks the route, is a parameter, as are its middlewares, of which
-- Recoverer turns a panic into an answer of its own.
use mathlib.Core.List.{Memᴰ}
use trust_lot.Prelude.{ℕ, String, Bool, List, [], ◌∷◌, ◌==◌, ◌≡◌, ◌⊎◌, if◌then◌else◌}
use trust_lot.Platform.{Float64, Env}
use trust_lot.Lineage.Graph.{MapOrder}
use trust_lot.Http.Messages.{
  Request, Numerals, Handler, write_by_router, write_header, Server, new_server,
}
use trust_lot.Http.Handlers.{
  handle_health, handle_list_exceptions, handle_get_exception, handle_list_recon_runs,
  handle_list_trust_scores, handle_list_replay_cases, handle_get_explanation,
  handle_trust_score_for_recon_result, handle_trust_score_for_exception, handle_lineage_for_entity,
  handle_lineage_for_exception, handle_get_replay_case, handle_create_replay_case_from_exception,
  handle_run_replay_case,
}

-- The handlers that the server registers.
pub data Endpoint : Type 0 where
  get_health : Endpoint
  list_exceptions : Endpoint
  get_exception : Endpoint
  get_explanation : Endpoint
  list_recon_runs : Endpoint
  list_trust_scores : Endpoint
  trust_score_for_recon_result : Endpoint
  trust_score_for_exception : Endpoint
  lineage_for_entity : Endpoint
  lineage_for_exception : Endpoint
  list_replay_cases : Endpoint
  get_replay_case : Endpoint
  create_replay_case_from_exception : Endpoint
  run_replay_case : Endpoint

pub record Route : Type 0 where
  pub method : String
  pub pattern : String
  pub endpoint : Endpoint

abbrev get : String → Endpoint → Route
get pattern endpoint = record { method = "GET"; pattern = pattern; endpoint = endpoint }

abbrev post : String → Endpoint → Route
post pattern endpoint = record { method = "POST"; pattern = pattern; endpoint = endpoint }

unfoldable pub routes : List Route
routes =
    get "/healthz" get_health
    ∷ get "/api/v1/exceptions" list_exceptions
    ∷ get "/api/v1/exceptions/{id}" get_exception
    ∷ get "/api/v1/exceptions/{id}/explanation" get_explanation
    ∷ get "/api/v1/recon-runs" list_recon_runs
    ∷ get "/api/v1/trust-scores" list_trust_scores
    ∷ get "/api/v1/trust-scores/recon-result/{id}" trust_score_for_recon_result
    ∷ get "/api/v1/trust-scores/exception/{id}" trust_score_for_exception
    ∷ get "/api/v1/lineage/{entityType}/{id}" lineage_for_entity
    ∷ get "/api/v1/lineage/exception/{id}" lineage_for_exception
    ∷ get "/api/v1/replay-cases" list_replay_cases
    ∷ get "/api/v1/replay-cases/{id}" get_replay_case
    ∷ post "/api/v1/replay-cases/from-exception/{id}" create_replay_case_from_exception
    ∷ post "/api/v1/replay-cases/{id}/run" run_replay_case
    ∷ []

-- What chi makes of a request: a route and the values of `chi.URLParam`, or an answer of its own.
pub data Dispatch : Type 0 where
  routed : Route → (String → String) → Dispatch
  missed : ℕ → Dispatch

pub record Mux : Type 0 where
  pub dispatch : List Route → Request → Dispatch

-- The route is one of the table, for the method of the request.
abbrev pub IsRouted : List Route → Request → Dispatch → Type 0
IsRouted table r (routed route param) = Memᴰ route table × (route.method ≡ r.method)
IsRouted table r (missed status) = (status ≡ 404) ⊎ (status ≡ 405)

-- What chi documents of its routing.
pub record IsMux (m : Mux) : Type 0 where
  pub in_table : (table : List Route) (r : Request) → IsRouted table r (m.dispatch table r)

module _ {N : Type 0} ⦃f : Float64 N⦄ ⦃env : Env⦄ ⦃o : MapOrder N⦄ ⦃n : Numerals⦄ (s : Server)
    (r : Request) where
  unfoldable pub handle : Endpoint → (String → String) → Handler N
  unfolding handle_health handle_list_exceptions handle_get_exception handle_get_explanation
      handle_list_recon_runs handle_list_trust_scores handle_trust_score_for_recon_result
      handle_trust_score_for_exception handle_lineage_for_entity handle_lineage_for_exception
      handle_list_replay_cases handle_get_replay_case handle_create_replay_case_from_exception
      handle_run_replay_case
  handle get_health param = handle_health s
  handle list_exceptions param = handle_list_exceptions s r
  handle get_exception param = handle_get_exception s (param "id")
  handle get_explanation param = handle_get_explanation s (param "id")
  handle list_recon_runs param = handle_list_recon_runs s r
  handle list_trust_scores param = handle_list_trust_scores s r
  handle trust_score_for_recon_result param = handle_trust_score_for_recon_result s (param "id")
  handle trust_score_for_exception param = handle_trust_score_for_exception s (param "id")
  handle lineage_for_entity param = handle_lineage_for_entity s (param "entityType") (param "id")
  handle lineage_for_exception param = handle_lineage_for_exception s (param "id")
  handle list_replay_cases param = handle_list_replay_cases s
  handle get_replay_case param = handle_get_replay_case s (param "id")
  handle create_replay_case_from_exception param =
      handle_create_replay_case_from_exception s (param "id")
  handle run_replay_case param = handle_run_replay_case s (param "id")

  abbrev pub respond : Dispatch → Handler N
  respond (routed route param) = handle route.endpoint param
  respond (missed status) = write_by_router status

-- `next` is not called for OPTIONS.
unfoldable pub cors_middleware : {N : Type 0} → (Request → Handler N) → Request → Handler N
cors_middleware next r = if r.method == "OPTIONS" then write_header 204 else next r

module _ {N : Type 0} ⦃f : Float64 N⦄ ⦃env : Env⦄ ⦃o : MapOrder N⦄ ⦃n : Numerals⦄ where
  -- A request to the server that NewServer makes.
  unfoldable pub serve : ⦃m : Mux⦄ → Bool → Request → Handler N
  unfolding cors_middleware handle routes new_server
  serve ⦃m⦄ store = cors_middleware (λ r. respond (new_server store) r (m.dispatch routes r))
