-- ===== src/Samples/Http.antt =====
-- The theorems on internal/http at concrete inputs.
use mathlib.Core.List.{Memᴰ}
use trust_lot.Prelude.{
  String, true, false, none, some, List, [], ◌∷◌, ◌==◌, ◌&&◌, eq_iff, ◌≢◌, inl, inr, refl, arith,
  Bool-cases, if◌then◌else◌,
}
use trust_lot.Prelude.Int.{pos}
use trust_lot.Http.Messages.{Request, Numerals}
use trust_lot.Http.Routes.{Route, Dispatch, routed, missed, Mux, IsMux, IsRouted, routes, serve}
use trust_lot.Http.Degraded.{Idle, serve_degraded}
use trust_lot.Http.Safety.{IsRecorded, IsUnscored, serve-IsRecorded, serve-IsUnscored}
use trust_lot.Http.Replies.{IsReply, serve-IsReply}
use trust_lot.Samples.Numbers.{cents}
use trust_lot.Samples.Data.{quiet, database}
use trust_lot.Samples.Lineage.{in_order}

instance abbrev pub two : Numerals
two = record { atoi = λ s. if s == "2" then some (pos 2) else none }

-- A router that takes the path for the pattern.
abbrev picked : List Route → Request → Dispatch
picked [] r = missed 404
picked (x ∷ xs) r =
    if x.method == r.method && x.pattern == r.path then routed x (λ key. "exc-1") else picked xs r

later :
    (x : Route) (xs : List Route) (r : Request) (d : Dispatch)
    → IsRouted xs r d
    → IsRouted (x ∷ xs) r d
later x xs r (routed y param) h = (Memᴰ.tail h.0, h.1)
later x xs r (missed status) h = h

picked-IsRouted : (xs : List Route) (r : Request) → IsRouted xs r (picked xs r)
picked-IsRouted [] r = inl refl
picked-IsRouted (x ∷ xs) r = elim (Bool-cases (x.method == r.method && x.pattern == r.path)) [
  | inl e ↦ simp (e, picked) (Memᴰ.head refl, ground (arith, eq_iff x.method r.method))
  | inr e ↦ simp (e, picked) (later x xs r (picked xs r) (picked-IsRouted xs r))
]

abbrev pub by_pattern : Mux
by_pattern = record { dispatch = picked }

pub by_pattern-IsMux : IsMux by_pattern
by_pattern-IsMux = record { in_table = picked-IsRouted }

abbrev pub request : String → String → Request
request method path = record {
  method = method;
  path = path;
  query = λ key. if key == "limit" then "2" else "";
}

abbrev pub explanation_request : Request
explanation_request = request "GET" "/api/v1/exceptions/{id}/explanation"

serve_degraded_example :
    Idle database 503 (serve ⦃m = by_pattern⦄ false explanation_request database)
unfolding routes
serve_degraded_example = serve_degraded by_pattern explanation_request database

serve-IsRecorded_example :
    IsRecorded database.tables
      (serve ⦃m = by_pattern⦄ true
        (request "POST" "/api/v1/replay-cases/from-exception/{id}")
        database).1.tables
serve-IsRecorded_example =
    serve-IsRecorded by_pattern by_pattern-IsMux true
      (request "POST" "/api/v1/replay-cases/from-exception/{id}") database

get_is_not_post : (request "GET" "/api/v1/trust-scores/exception/{id}").method ≢ "POST"
get_is_not_post = λ e. absurd (ground (arith, eq_iff (explanation_request.method) "POST"))

serve-IsUnscored_example :
    IsUnscored database.tables
      (serve ⦃m = by_pattern⦄ true
        (request "GET" "/api/v1/trust-scores/exception/{id}")
        database).1.tables
serve-IsUnscored_example =
    serve-IsUnscored by_pattern by_pattern-IsMux true
      (request "GET" "/api/v1/trust-scores/exception/{id}") database get_is_not_post

serve-IsReply_example : IsReply (serve ⦃m = by_pattern⦄ true explanation_request database).0
serve-IsReply_example =
    serve-IsReply by_pattern by_pattern-IsMux true explanation_request database (refl, tt)
