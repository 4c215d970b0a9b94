-- ===== src/Recon/Entries.antt =====
-- The rows that internal/recon/engine.go is to append for an outcome: a result, and for a break an
-- exception, its event and the edges of the lineage.
use mathlib.Core.List.{append_assoc, append-nil}
use trust_lot.Platform.{Env}
use trust_lot.Prelude.{
  ℕ, zero, suc, String, false, Option, none, some, List, [], ◌∷◌, ◌++◌, map, ◌==◌, ◌≡◌, ap, ◌∙◌,
  ◌⊎◌, concat,
}
use trust_lot.Model.{Exception}
use trust_lot.Model.ReasonCode.{status_break}
use trust_lot.Db.Tables.{Tables, ReconResultRow, ExceptionEvent, EdgeRow}
use trust_lot.Db.Recon.{nullable}

-- A result and the exception that it raises, if any.
pub record Entry : Type 0 where
  pub result : ReconResultRow
  pub raised : Option Exception

abbrev pub flat : {A B : Type 0} → (A → List B) → List A → List B
flat f [] = []
flat f (x ∷ xs) = f x ++ flat f xs

abbrev pub result_in : Entry → List ReconResultRow
result_in e = e.result ∷ []

abbrev pub listed : Option Exception → List Exception
listed none = []
listed (some e) = e ∷ []

abbrev pub exception_in : Entry → List Exception
exception_in e = listed e.raised

-- The first event of an exception.
abbrev pub created_event : Exception → ExceptionEvent
created_event e = record {
  exception_id = e.id;
  event_type = "created";
  actor = "system";
  detail = concat ("{\"reason_code\":\"" ∷ e.reason_code ∷ "\"}" ∷ []);
}

abbrev pub event_in : Entry → List ExceptionEvent
event_in e = map created_event (exception_in e)

-- From the record to its result, and from the result to the exception.
abbrev pub edges_in : Entry → List EdgeRow
edges_in e =
    record {
      source_type = e.result.entity_type;
      source_id = e.result.entity_id;
      target_type = "recon_result";
      target_id = e.result.id;
      relation = "reconciled_as";
    }
    ∷ map
        (λ x. record {
          source_type = "recon_result";
          source_id = e.result.id;
          target_type = "exception";
          target_id = x.id;
          relation = "raised_exception";
        })
        (exception_in e)

abbrev pub ids_in : Entry → List String
ids_in e = e.result.id ∷ map (λ x. x.id) (exception_in e)

-- The next ids that the program draws.
abbrev pub draws : ⦃env : Env⦄ → ℕ → ℕ → List String
draws k zero = []
draws ⦃env⦄ k (suc n) = env.fresh_id k ∷ draws (suc k) n

-- The entries are appended, and nothing else is.
pub record IsTrail {N : Type 0} (s t : Tables N) (entries : List Entry) : Type 0 where
  pub results : t.recon_results ≡ s.recon_results ++ flat result_in entries
  pub exceptions : t.exceptions ≡ s.exceptions ++ flat exception_in entries
  pub events : t.exception_events ≡ s.exception_events ++ flat event_in entries
  pub edges : t.lineage_edges ≡ s.lineage_edges ++ flat edges_in entries

-- An exception is an open one of its result's run, record and reason, and the result a BREAK; a result
-- that raises none is no BREAK, or has no reason.
abbrev pub Backs : ReconResultRow → Option Exception → Type 0
Backs r none = ((r.status == status_break) ≡ false) ⊎ (r.reason_code ≡ none)
Backs r (some e) =
    (r.status ≡ status_break)
    × (e.status ≡ "open")
    × (e.recon_run_id ≡ r.run_id)
    × (e.entity_type ≡ r.entity_type)
    × (e.entity_id ≡ r.entity_id)
    × (nullable e.reason_code ≡ r.reason_code)

abbrev pub IsBacked : Entry → Type 0
IsBacked e = Backs e.result e.raised

chained :
    {A B : Type 0} (f : A → List B) (s t u : List B) (x : A) (xs : List A)
    → t ≡ s ++ flat f (x ∷ [])
    → u ≡ t ++ flat f xs
    → u ≡ s ++ flat f (x ∷ xs)
chained f s t u x xs e g =
    g
    ∙ ap (λ y. y ++ flat f xs) (e ∙ ap (λ y. s ++ y) (append-nil (f x)))
    ∙ append_assoc s (f x) (flat f xs)

pub IsTrail-next :
    {N : Type 0} (s t u : Tables N) (e : Entry) (es : List Entry)
    → IsTrail s t (e ∷ [])
    → IsTrail t u es
    → IsTrail s u (e ∷ es)
IsTrail-next s t u e es h k = record {
  results = chained result_in s.recon_results t.recon_results _ e es h.results k.results;
  exceptions = chained exception_in s.exceptions t.exceptions _ e es h.exceptions k.exceptions;
  events = chained event_in s.exception_events t.exception_events _ e es h.events k.events;
  edges = chained edges_in s.lineage_edges t.lineage_edges _ e es h.edges k.edges;
}
