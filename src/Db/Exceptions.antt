-- ===== src/Db/Exceptions.antt =====
-- internal/db/store.go: the queries on exceptions, exception_events and lineage_edges.
use trust_lot.Prelude.{
  ℕ, String, Bool, ◌&&◌, List, [], ◌∷◌, ◌++◌, ◌==◌, keep, find, ltb, sort_by, if◌then◌else◌,
}
use trust_lot.Platform.{Env}
use trust_lot.Model.{Exception}
use trust_lot.Db.Exec.{stored_time, Exec, ok, query, execute, row, with_context, on_error, limited}
use trust_lot.Db.Recon.{not_found}

-- `ORDER BY created_at DESC`
abbrev pub newer : Exception → Exception → Bool
newer a b = ltb b.created_at a.created_at

-- An exception as the database keeps it.
abbrev pub kept_exception : Exception → Exception
kept_exception e = record e {
  created_at = stored_time e.created_at;
  updated_at = stored_time e.updated_at;
}

module _ {N : Type 0} ⦃env : Env⦄ where
  -- An empty status asks for all exceptions, a limit of 0 for any number of them.
  unfoldable pub list_exceptions : String → ℕ → Exec N (List Exception)
  unfolding sort_by
  list_exceptions status limit = with_context "list exceptions" (
      query λ t. ok (
        limited limit (
          sort_by newer
            (if status == "" then t.exceptions else keep (λ e. e.status == status) t.exceptions))))

  unfoldable pub get_exception : String → Exec N Exception
  get_exception id =
      on_error (not_found "exception" id "get exception")
        (query λ t. row (find (λ e. e.id == id) t.exceptions))

  unfoldable pub insert_exception : Exception → Exec N (Unit {0})
  insert_exception e =
      with_context "insert exception"
        (execute λ t. record t { exceptions = t.exceptions ++ kept_exception e ∷ [] })

  unfoldable pub insert_exception_event : String → String → String → String → Exec N (Unit {0})
  insert_exception_event exception_id event_type actor detail =
      with_context "insert exception event" (
        execute λ t. record t {
          exception_events =
              t.exception_events
              ++ record {
                exception_id = exception_id;
                event_type = event_type;
                actor = actor;
                detail = detail;
              }
                ∷ [];
        })

  -- The exception of the entity in the run that was updated last.
  unfoldable pub find_exception_for_entity : String → String → String → Exec N Exception
  unfolding sort_by
  find_exception_for_entity run_id entity_type entity_id =
      with_context "find exception for entity" (
        query λ t. row (
          find
            (λ e.
              e.recon_run_id == run_id && e.entity_type == entity_type && e.entity_id == entity_id)
            (sort_by (λ a b. ltb b.updated_at a.updated_at) t.exceptions)))

  unfoldable pub list_exceptions_for_entity : String → String → Exec N (List Exception)
  unfolding sort_by
  list_exceptions_for_entity entity_type entity_id = with_context "list exceptions for entity" (
      query λ t. ok (
        sort_by newer
          (keep (λ e. e.entity_type == entity_type && e.entity_id == entity_id) t.exceptions)))

  unfoldable pub insert_lineage_edge :
      String → String → String → String → String → Exec N (Unit {0})
  insert_lineage_edge source_type source_id target_type target_id relation =
      with_context "insert lineage edge" (
        execute λ t. record t {
          lineage_edges =
              t.lineage_edges
              ++ record {
                source_type = source_type;
                source_id = source_id;
                target_type = target_type;
                target_id = target_id;
                relation = relation;
              }
                ∷ [];
        })
