-- ===== src/System/Scores.antt =====
-- The trust scores of internal/trust over the runs of the engine and the requests to the server.
use trust_lot.Prelude.{String, inl, inr, sym, subst, Option-cases}
use trust_lot.Platform.{Float64, Env}
use trust_lot.Db.Tables.{Tables, ReconConfig}
use trust_lot.Db.Exec.{World, stored_time}
use trust_lot.Db.Keeps.{Keeps, Keeps-on_error}
use trust_lot.Db.Scores.{upsert_row, upsert_trust_score}
use trust_lot.Recon.Engine.{run}
use trust_lot.Recon.Safety.{run-IsInput}
use trust_lot.Trust.Persisted.{HasOneEach, upsert-HasOneEach}
use trust_lot.Lineage.Graph.{MapOrder}
use trust_lot.Http.Messages.{Numerals}
use trust_lot.Http.Routes.{Mux, IsMux}
use trust_lot.Http.Upheld.{ScoresKept}
use trust_lot.Http.Safety.{cases_kept}
use trust_lot.System.Steps.{Reaches, Reaches-keeps}

-- Each entity has one score at most.
abbrev IsScoredOnce : {N : Type 0} → Tables N → Type 0
IsScoredOnce t = HasOneEach t.trust_scores

module _ {N : Type 0} ⦃env : Env⦄ where
  upserted-IsScoredOnce : ScoresKept (IsScoredOnce {N = N})
  unfolding upsert_trust_score upsert_row
  upserted-IsScoredOnce ts = Keeps-on_error _ _ (record {
    at = λ w h. elim (Option-cases (env.fault w.calls)) [
      | inl e ↦ simp e (
          upsert-HasOneEach _ (record ts { computed_at = stored_time ts.computed_at })
            w.tables.trust_scores h)
      | inr (s, e) ↦ simp e h
    ];
  })

  run-IsScoredOnce :
      ⦃f : Float64 N⦄ (config : ReconConfig N) (id : String) → Keeps IsScoredOnce (run config id)
  run-IsScoredOnce config id = record {
    at = λ w h. subst HasOneEach (sym (run-IsInput config id w).trust_scores) h;
  }

module _ {N : Type 0} ⦃f : Float64 N⦄ ⦃env : Env⦄ ⦃o : MapOrder N⦄ ⦃n : Numerals⦄ (m : Mux)
    (is_mux : IsMux m) (config : ReconConfig N) where
  -- If each entity has one score at most, then so it is after any runs of the engine and any requests,
  -- in any order and whatever calls of the database fail, where chi picks a route of the table for the
  -- request's method or answers 404 or 405.
  pub reached-HasOneEach :
      (v w : World N)
      → Reaches m config v w
      → HasOneEach v.tables.trust_scores
      → HasOneEach w.tables.trust_scores
  reached-HasOneEach =
      Reaches-keeps m is_mux config IsScoredOnce (run-IsScoredOnce config) upserted-IsScoredOnce
        (cases_kept IsScoredOnce (λ t xs h. h))
