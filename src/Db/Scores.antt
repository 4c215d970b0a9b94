-- ===== src/Db/Scores.antt =====
-- internal/db/store.go: the queries on trust_scores.
use trust_lot.Prelude.{
  ℕ, suc, String, Bool, none, some, ◌&&◌, List, [], ◌∷◌, ◌==◌, find, ltb, sort_by, if◌then◌else◌,
}
use trust_lot.Platform.{Env}
use trust_lot.Db.Tables.{TrustScoreRow}
use trust_lot.Db.Exec.{Exec, stored_time, ok, served, written, query, row, with_context, limited}

abbrev pub is_for : String → String → TrustScoreRow → Bool
is_for entity_type entity_id r = r.entity_type == entity_type && r.entity_id == entity_id

-- `DO UPDATE SET` changes every column but the id and the entity.
abbrev overwrite : TrustScoreRow → TrustScoreRow → TrustScoreRow
overwrite ts r = record ts { id = r.id; entity_type = r.entity_type; entity_id = r.entity_id }

-- `INSERT ... ON CONFLICT ON CONSTRAINT uq_trust_scores_entity DO UPDATE`; `id` is the id that the
-- database gives to a new row.
unfoldable pub upsert : String → TrustScoreRow → List TrustScoreRow → List TrustScoreRow
upsert id ts [] = record ts { id = id } ∷ []
upsert id ts (r ∷ rows) =
    if is_for ts.entity_type ts.entity_id r then overwrite ts r ∷ rows else r ∷ upsert id ts rows

-- `RETURNING id`
unfoldable pub upserted_id : String → TrustScoreRow → List TrustScoreRow → String
upserted_id id ts rows = elim (find (is_for ts.entity_type ts.entity_id) rows) [
  | none ↦ id
  | some r ↦ r.id
]

module _ {N : Type 0} ⦃env : Env⦄ where
  unfoldable pub upsert_row : TrustScoreRow → Exec N String
  upsert_row ts w =
      let id = env.row_id w.calls in
      let stored = record ts { computed_at = stored_time ts.computed_at } in
      (
        served (env.fault w.calls) (ok (upserted_id id stored w.tables.trust_scores)),
        record w {
          tables =
              written (env.fault w.calls)
                (λ t. record t { trust_scores = upsert id stored t.trust_scores }) w.tables;
          calls = suc w.calls;
        },
      )

  unfoldable pub upsert_trust_score : TrustScoreRow → Exec N String
  unfolding upsert_row
  upsert_trust_score ts = with_context "upsert trust score" (upsert_row ts)

  unfoldable pub get_trust_score_for_entity : String → String → Exec N TrustScoreRow
  get_trust_score_for_entity entity_type entity_id =
      with_context "get trust score for entity"
        (query λ t. row (find (is_for entity_type entity_id) t.trust_scores))

  -- `ORDER BY computed_at DESC`
  unfoldable pub list_trust_scores : ℕ → Exec N (List TrustScoreRow)
  unfolding sort_by
  list_trust_scores limit = with_context "list trust scores" (
      query
        λ t. ok (limited limit (sort_by (λ a b. ltb b.computed_at a.computed_at) t.trust_scores)))
