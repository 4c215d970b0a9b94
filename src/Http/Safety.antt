-- ===== src/Http/Safety.antt =====
-- What requests to internal/http change of the tables.
use trust_lot.Prelude.{String, List, Bool, false, ◌==◌, ◌≡◌, ◌≢◌, refl, arith, Bool-cases, inl, inr}
use trust_lot.Platform.{Float64, Env}
use trust_lot.Db.Tables.{Tables, TrustScoreRow, ReplayCaseRow}
use trust_lot.Db.Exec.{World}
use trust_lot.Db.Keeps.{keeps_written, Keeps-on_error, Keeps-execute}
use trust_lot.Db.Scores.{upsert_row, upsert_trust_score}
use trust_lot.Db.Replays.{insert_replay_case, update_replay_case_status}
use trust_lot.Lineage.Graph.{MapOrder}
use trust_lot.Http.Messages.{Request, Numerals, Server, new_server}
use trust_lot.Http.Routes.{Endpoint, Mux, IsMux, routes, handle, cors_middleware, serve}
use trust_lot.Http.Upheld.{scores, posts, ScoresKept, CasesKept, handle-Upholds, respond-Upholds}

-- The tables that the reconciliation and the ingestion write.
pub record IsRecorded {N : Type 0} (s t : Tables N) : Type 0 where
  pub positions : t.positions ≡ s.positions
  pub transactions : t.transactions ≡ s.transactions
  pub recon_runs : t.recon_runs ≡ s.recon_runs
  pub recon_results : t.recon_results ≡ s.recon_results
  pub exceptions : t.exceptions ≡ s.exceptions
  pub exception_events : t.exception_events ≡ s.exception_events
  pub lineage_edges : t.lineage_edges ≡ s.lineage_edges
  pub raw_records : t.raw_records ≡ s.raw_records
  pub ingestion_batches : t.ingestion_batches ≡ s.ingestion_batches

-- All tables but that of the scores.
pub record IsUnscored {N : Type 0} (s t : Tables N) : Type 0 where
  pub recorded : IsRecorded s t
  pub replay_cases : t.replay_cases ≡ s.replay_cases

-- What a write of scores keeps that the change of the table keeps.
pub scores_kept :
    {N : Type 0} (P : Tables N → Type 0) ⦃env : Env⦄
    → ((t : Tables N) (xs : List TrustScoreRow) → P t → P (record t { trust_scores = xs }))
    → ScoresKept P
unfolding upsert_trust_score upsert_row
scores_kept P ⦃env⦄ k ts =
    Keeps-on_error _ _
      (record { at = λ w h. keeps_written P (env.fault w.calls) _ w.tables h (k w.tables _) })

pub cases_kept :
    {N : Type 0} (P : Tables N → Type 0) ⦃env : Env⦄
    → ((t : Tables N) (xs : List (ReplayCaseRow N)) → P t → P (record t { replay_cases = xs }))
    → CasesKept P
unfolding insert_replay_case update_replay_case_status
cases_kept P k = (
  λ rc. Keeps-on_error _ _ (Keeps-execute _ (λ t. k t _)),
  λ id status. Keeps-on_error _ _ (Keeps-execute _ (λ t. k t _)),
)

recorded_score :
    {N : Type 0} (s t : Tables N) (xs : List TrustScoreRow)
    → IsRecorded s t
    → IsRecorded s (record t { trust_scores = xs })
recorded_score s t xs h = ground arith

recorded_case :
    {N : Type 0} (s t : Tables N) (xs : List (ReplayCaseRow N))
    → IsRecorded s t
    → IsRecorded s (record t { replay_cases = xs })
recorded_case s t xs h = ground arith

recorded_self : {N : Type 0} (s : Tables N) → IsRecorded s s
recorded_self s = ground arith

module _ {N : Type 0} ⦃f : Float64 N⦄ ⦃env : Env⦄ ⦃o : MapOrder N⦄ ⦃n : Numerals⦄ (m : Mux)
    (is_mux : IsMux m) (store : Bool) (r : Request) (w : World N) where
  pub serve-Upholds :
      (P : Tables N → Type 0)
      → ScoresKept P
      → (r.method ≡ "POST" → CasesKept P)
      → P w.tables
      → P (serve ⦃m = m⦄ store r w).1.tables
  unfolding serve cors_middleware
  serve-Upholds P k l h = elim (Bool-cases (r.method == "OPTIONS")) [
    | inl e ↦ rw (e, serve) h
    | inr e ↦
        rw (e, serve)
          ((respond-Upholds {P = P} (new_server store) r (m.dispatch routes r) k l
              (is_mux.in_table routes r)).at
            w h)
  ]

  -- Whatever calls of the database fail, no request changes a position, a transaction, a run, a
  -- result, an exception, an event, an edge of the lineage, a raw record or a batch, for any chi that
  -- picks a route of the table for the request's method or answers 404 or 405.
  pub serve-IsRecorded : IsRecorded w.tables (serve ⦃m = m⦄ store r w).1.tables
  serve-IsRecorded =
      serve-Upholds (IsRecorded w.tables)
        (scores_kept (IsRecorded w.tables) (recorded_score w.tables))
        (λ e. cases_kept (IsRecorded w.tables) (recorded_case w.tables)) (recorded_self w.tables)

  -- A request whose method is not POST changes no table but that of the trust scores, whatever calls
  -- of the database fail, for such a chi.
  pub serve-IsUnscored : r.method ≢ "POST" → IsUnscored w.tables (serve ⦃m = m⦄ store r w).1.tables
  serve-IsUnscored h =
      serve-Upholds (IsUnscored w.tables)
        (scores_kept (IsUnscored w.tables) (λ t xs k. record {
          recorded = recorded_score w.tables t xs k.recorded;
          replay_cases = k.replay_cases;
        }))
        (λ e. absurd (h e)) (record { recorded = recorded_self w.tables; replay_cases = refl })

-- The endpoints but the two that compute a trust score and the two under POST change no table, with a
-- store or without, whatever calls of the database fail.
pub handle_reads :
    {N : Type 0} ⦃f : Float64 N⦄ ⦃env : Env⦄ ⦃o : MapOrder N⦄ ⦃n : Numerals⦄ (s : Server)
    (r : Request) (e : Endpoint) (param : String → String) (w : World N)
    → scores e ≡ false
    → posts e ≡ false
    → (handle s r e param w).1.tables ≡ w.tables
handle_reads s r e param w hs hp =
    (handle-Upholds {P = λ t. t ≡ w.tables} s r param e (λ k. absurd (ground arith))
        (λ k. absurd (ground arith))).at
      w refl
