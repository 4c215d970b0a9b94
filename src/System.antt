-- ===== src/System.antt =====
-- The engine of internal/recon and the server of internal/http over one database.
pub mod Steps
pub mod Replays
pub mod Scores
use trust_lot.Prelude.{String, true, [], ◌≡◌, sym, subst, All}
use trust_lot.Platform.{Float64, Env}
use trust_lot.Db.Tables.{Tables, ReconConfig}
use trust_lot.Db.Exec.{World}
use trust_lot.Recon.Engine.{run}
use trust_lot.Recon.Traced.{has_result, IsTraced, run-IsTraced}
use trust_lot.Recon.Fitting.{fitting}
use trust_lot.Recon.Reasons.{AllFitting, run-AllFitting}
use trust_lot.Lineage.Graph.{MapOrder}
use trust_lot.Http.Messages.{Request, Numerals}
use trust_lot.Http.Routes.{Mux, IsMux, serve}
use trust_lot.Db.Keeps.{Keeps}
use trust_lot.System.Steps.{Reaches, Reaches-keeps}
use trust_lot.Http.Safety.{scores_kept, cases_kept}
use trust_lot.Http.Replies.{IsReply, serve-IsReply}

-- What holds between steps.
abbrev IsSound : {N : Type 0} → Tables N → Type 0
IsSound t = AllFitting t × IsTraced t

module _ {N : Type 0} where
  none_yet : (t : Tables N) → t.exceptions ≡ [] → IsSound t
  none_yet t h = (
    subst (All (λ e. fitting e.entity_type e.reason_code ≡ true)) (sym h) tt,
    subst (All (λ e. has_result e t.recon_results ≡ true)) (sym h) tt,
  )

module _ {N : Type 0} ⦃f : Float64 N⦄ ⦃env : Env⦄ ⦃o : MapOrder N⦄ ⦃n : Numerals⦄ (m : Mux)
    (is_mux : IsMux m) (config : ReconConfig N) where
  run-IsSound : (id : String) → Keeps IsSound (run config id)
  run-IsSound id = record {
    at = λ w h. ((run-AllFitting config id).at w h.0, run-IsTraced config id w h.1);
  }

  reached-IsSound : (v w : World N) → Reaches m config v w → IsSound v.tables → IsSound w.tables
  reached-IsSound =
      Reaches-keeps m is_mux config IsSound run-IsSound (scores_kept IsSound (λ t xs h. h))
        (cases_kept IsSound (λ t xs h. h))

  -- From a database without exceptions, after any runs of the engine and any requests, in any order
  -- and whatever calls of the database fail: each exception has a BREAK result of its run, record and
  -- reason, and no request makes the server panic, where chi picks a route of the table for the
  -- request's method or answers 404 or 405. A reply with an error's text then has the status 400, 404,
  -- 500 or 503, one without a body 204, one that chi writes itself 404 or 405, any other 200 or 201.
  pub reached-IsReply :
      (v w : World N)
      → v.tables.exceptions ≡ []
      → Reaches m config v w
      → (r : Request) → IsTraced w.tables × IsReply (serve ⦃m = m⦄ true r w).0
  reached-IsReply v w h s r =
      let sound = reached-IsSound v w s (none_yet v.tables h) in
      (sound.1, serve-IsReply m is_mux true r w sound.0)
