-- ===== src/Trust/Evidence.antt =====
-- The evidence that internal/trust/service.go should score a result by, from the tables.
use trust_lot.Prelude.{
  String, Bool, true, Option, none, some, ◌&&◌, ◌==◌, find, ltb, sort_by, not, if◌then◌else◌,
}
use trust_lot.Platform.{Time, Float64}
use trust_lot.Model.{Position, Transaction, ReconRun, ReconResult, Exception}
use trust_lot.Db.Tables.{Tables}
use trust_lot.Trust.Scorer.{ReconInput}
use trust_lot.Trust.Service.{EntitySignals, unknown_entity, present, input_of}

module _ {N : Type 0} ⦃f : Float64 N⦄ where
  -- What the record says of itself, and what stands for a record that is not there.
  abbrev pub of_position : Time → Option (Position N) → EntitySignals
  of_position day none = unknown_entity day
  of_position day (some p) = record {
    source = p.source;
    as_of_date = p.as_of_date;
    has_account_id = present p.account_id;
    has_security_id = present p.security_id;
    has_quantity = true;
    has_amount = not (f.eq p.market_value f.zero);
  }

  abbrev pub of_transaction : Time → Option (Transaction N) → EntitySignals
  of_transaction day none = unknown_entity day
  of_transaction day (some t) = record {
    source = t.source;
    as_of_date = t.trade_date;
    has_account_id = present t.account_id;
    has_security_id = present t.security_id;
    has_quantity = true;
    has_amount = not (f.eq t.amount f.zero);
  }

  abbrev pub signals_in : Tables N → String → String → Time → EntitySignals
  signals_in t entity_type id day =
      if entity_type == "position"
      then of_position day (find (λ p. p.id == id) t.positions)
      else if entity_type == "transaction"
      then of_transaction day (find (λ x. x.id == id) t.transactions)
      else unknown_entity day

  -- The evidence for a result: its own status and reason, its record, the date of its run, the status
  -- of its exception and the time.
  abbrev pub evidence : Tables N → ReconResult → ReconRun → String → Time → ReconInput
  evidence t r run exception_status now =
      input_of r.status r.reason_code (signals_in t r.entity_type r.entity_id run.as_of_date) now
        exception_status

abbrev pub status_or_empty : Option Exception → String
status_or_empty none = ""
status_or_empty (some e) = e.status

abbrev pub is_about : ReconResult → Exception → Bool
is_about r e =
    e.recon_run_id == r.run_id && e.entity_type == r.entity_type && e.entity_id == r.entity_id

-- The exception on the result's record in its run that was updated last.
abbrev pub latest_exception : {N : Type 0} → Tables N → ReconResult → Option Exception
latest_exception t r =
    find (is_about r) (sort_by (λ a b. ltb b.updated_at a.updated_at) t.exceptions)
