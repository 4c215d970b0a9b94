-- ===== src/System/Steps.antt =====
-- The runs of the engine of internal/recon and the requests to the server of internal/http, one after
-- the other, each whole.
use trust_lot.Prelude.{String, true, ◌≡◌, subst}
use trust_lot.Platform.{Float64, Env}
use trust_lot.Db.Tables.{Tables, ReconConfig}
use trust_lot.Db.Exec.{World}
use trust_lot.Db.Keeps.{Keeps}
use trust_lot.Recon.Engine.{run}
use trust_lot.Lineage.Graph.{MapOrder}
use trust_lot.Http.Messages.{Request, Numerals}
use trust_lot.Http.Routes.{Mux, IsMux, serve}
use trust_lot.Http.Upheld.{ScoresKept, CasesKept}
use trust_lot.Http.Safety.{serve-Upholds}

module _ {N : Type 0} ⦃f : Float64 N⦄ ⦃env : Env⦄ ⦃o : MapOrder N⦄ ⦃n : Numerals⦄ (m : Mux)
    (config : ReconConfig N) where
  -- A run of the engine, or a request to a server with a store.
  pub data Step (w u : World N) : Type 0 where
    ran : (id : String) → (run config id w).1 ≡ u → Step w u
    answered : (r : Request) → (serve ⦃m = m⦄ true r w).1 ≡ u → Step w u

  pub data Reaches (v : World N) : World N → Type 0 where
    start : Reaches v v
    next : {w u : World N} → Reaches v w → Step w u → Reaches v u

module _ {N : Type 0} ⦃f : Float64 N⦄ ⦃env : Env⦄ ⦃o : MapOrder N⦄ ⦃n : Numerals⦄ (m : Mux)
    (is_mux : IsMux m) (config : ReconConfig N) (P : Tables N → Type 0)
    (runs : (id : String) → Keeps P (run config id)) (scores : ScoresKept P)
    (cases : CasesKept P) where
  Step-keeps : (w u : World N) → Step m config w u → P w.tables → P u.tables
  Step-keeps w u (ran id e) h = subst (λ x. P x.tables) e ((runs id).at w h)
  Step-keeps w u (answered r e) h =
      subst (λ x. P x.tables) e (serve-Upholds m is_mux true r w P scores (λ _. cases) h)

  -- What each step keeps holds of each world that is reached.
  pub Reaches-keeps : (v w : World N) → Reaches m config v w → P v.tables → P w.tables
  Reaches-keeps v _ start h = h
  Reaches-keeps v u (next {w = w} s step) h = Step-keeps w u step (Reaches-keeps v w s h)
