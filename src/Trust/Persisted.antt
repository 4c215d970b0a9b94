-- ===== src/Trust/Persisted.antt =====
-- What the trust score service (internal/trust/service.go) leaves in trust_scores.
use trust_lot.Prelude.{
  ◌*◌, ◌/◌, String, false, some, ◌&&◌, List, [], ◌∷◌, ◌==◌, eq_iff, eq_refl, ◌≡◌, refl, sym, arith,
  find, keep, length, ◌≤◌, Bool-cases, inl, inr,
}
use trust_lot.Platform.{Env, IsHealthy}
use trust_lot.Db.Tables.{TrustScoreRow}
use trust_lot.Db.Exec.{ok, World, pure, on_error, query, time_now, ◌>>=◌}
use trust_lot.Db.Scores.{
  is_for, upsert, upserted_id, upsert_row, upsert_trust_score, get_trust_score_for_entity,
}
use trust_lot.Trust.Scorer.{ReconInput, compute_components, compute_total}
use trust_lot.Trust.Service.{
  TrustScoreResult, score_row, score_result, row_to_result, compute_and_persist,
}

-- Each entity has one row at most.
abbrev pub HasOneEach : List TrustScoreRow → Type 0
HasOneEach rows =
    (entity_type entity_id : String) → length (keep (is_for entity_type entity_id) rows) ≤ 1

-- The row of the entity is the new one, under the id that the upsert answers.
find-upsert :
    (id : String) (ts : TrustScoreRow) (rows : List TrustScoreRow)
    → find (is_for ts.entity_type ts.entity_id) (upsert id ts rows)
      ≡ some (record ts { id = upserted_id id ts rows })
unfolding upsert upserted_id
find-upsert id ts [] = rw (eq_refl ts.entity_type, eq_refl ts.entity_id) refl
find-upsert id ts (r ∷ rows) = elim (Bool-cases (is_for ts.entity_type ts.entity_id r)) [
  | inl e ↦
      let types : r.entity_type ≡ ts.entity_type =
        ground (arith, eq_iff r.entity_type ts.entity_type) in
      let ids : r.entity_id ≡ ts.entity_id = ground (arith, eq_iff r.entity_id ts.entity_id) in
      simp (e, upserted_id)
        (λ i. some (record ts { id = r.id; entity_type = types i; entity_id = ids i }))
  | inr e ↦ simp (e, upserted_id) (find-upsert id ts rows)
]

-- The rows of the other entities stay.
keep-upsert :
    (id : String) (ts : TrustScoreRow) (rows : List TrustScoreRow) (entity_type entity_id : String)
    → (ts.entity_type == entity_type && ts.entity_id == entity_id) ≡ false
    → keep (is_for entity_type entity_id) (upsert id ts rows)
      ≡ keep (is_for entity_type entity_id) rows
unfolding upsert
keep-upsert id ts [] ty e h = ground arith
keep-upsert id ts (r ∷ rows) ty e h = ground (
  arith,
  keep-upsert id ts rows ty e,
  eq_iff r.entity_type ts.entity_type,
  eq_iff r.entity_id ts.entity_id,
)

count-upsert :
    (id : String) (ts : TrustScoreRow) (rows : List TrustScoreRow)
    → length (keep (is_for ts.entity_type ts.entity_id) rows) ≤ 1
    → length (keep (is_for ts.entity_type ts.entity_id) (upsert id ts rows)) ≡ 1
unfolding upsert
count-upsert id ts [] h =
    ground (arith, eq_iff ts.entity_type ts.entity_type, eq_iff ts.entity_id ts.entity_id)
count-upsert id ts (r ∷ rows) h = ground (
  arith,
  count-upsert id ts rows,
  eq_iff ts.entity_type ts.entity_type,
  eq_iff ts.entity_id ts.entity_id,
)

pub upsert-HasOneEach :
    (id : String) (ts : TrustScoreRow) (rows : List TrustScoreRow)
    → HasOneEach rows
    → HasOneEach (upsert id ts rows)
upsert-HasOneEach id ts rows h ty e =
    elim (Bool-cases (ts.entity_type == ty && ts.entity_id == e)) [
      | inl same ↦
          let types : ts.entity_type ≡ ty = ground (arith, eq_iff ts.entity_type ty) in
          let ids : ts.entity_id ≡ e = ground (arith, eq_iff ts.entity_id e) in
          rw (sym types, sym ids)
            (omega (arith, count-upsert id ts rows (h ts.entity_type ts.entity_id)))
      | inr other ↦ rw (keep-upsert id ts rows ty e other) (h ty e)
    ]

module _ {N : Type 0} ⦃env : Env⦄ (entity_type entity_id : String) (input : ReconInput)
    (w : World N) where
  -- Where the database serves every call: what the service returns is, but for the fraction of a
  -- microsecond, what the database then holds for the entity, read back.
  pub compute_and_persist-reads :
      IsHealthy env
      → let out = compute_and_persist entity_type entity_id input w in
        (result : TrustScoreResult) × (row : TrustScoreRow) × (out.0 ≡ ok result)
        × (result.score ≡ compute_total (compute_components input))
        × ((get_trust_score_for_entity entity_type entity_id out.1).0 ≡ ok row)
        × (row_to_result row ≡ record result { computed_at = result.computed_at / 1_000 * 1_000 })
  unfolding compute_and_persist upsert_trust_score upsert_row get_trust_score_for_entity query
      on_error time_now pure ◌>>=◌ score_row score_result row_to_result
  compute_and_persist-reads healthy =
      let now = env.now w.ticks in
      let ts = record (score_row entity_type entity_id input now) {
        computed_at = now / 1_000 * 1_000;
      } in
      let id = upserted_id (env.row_id w.calls) ts w.tables.trust_scores in
      (
        score_result id entity_type entity_id input now,
        record ts { id = id },
        simp healthy,
        refl,
        simp (healthy, find-upsert (env.row_id w.calls) ts w.tables.trust_scores),
        refl,
      )
