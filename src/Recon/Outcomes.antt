-- ===== src/Recon/Outcomes.antt =====
-- What a reconciliation is to report, with no map and no loop state: one outcome for each internal
-- record, and one for each custodian record whose key no internal record has. It is the
-- specification of the two loops of internal/recon/engine.go.
use trust_lot.Prelude.{
  String, Bool, false, Option, none, some, ◌||◌, not, List, [], ◌∷◌, ◌++◌, map, ◌==◌, keep,
  if◌then◌else◌,
}
use trust_lot.Platform.{Env}
use trust_lot.Model.{ReconRun}
use trust_lot.Model.ReasonCode.{status_break, map_account_unmapped}
use trust_lot.Db.Tables.{ReconConfig}
use trust_lot.Db.Exec.{Exec, pure, ◌>>◌}
use trust_lot.Recon.Rules.{Verdict}
use trust_lot.Recon.Persist.{persist_result}
use trust_lot.Recon.Engine.{Kind, judge}

pub record Outcome : Type 0 where
  pub entity_id : String
  pub status : String
  pub reason : Option String
  pub details : String

module _ {A : Type 0} (key : A → String) where
  -- The last record with a key.
  unfoldable pub partner : String → List A → Option A
  partner k [] = none
  partner k (y ∷ ys) = elim (partner k ys) [
    | some z ↦ some z
    | none ↦ if key y == k then some y else none
  ]

  unfoldable pub has_key : String → List A → Bool
  has_key k [] = false
  has_key k (x ∷ xs) = key x == k || has_key k xs

module _ {N A : Type 0} where
  abbrev pub unmatched : Kind N A → String → A → Outcome
  unmatched kind details x = record {
    entity_id = kind.id x;
    status = status_break;
    reason = some map_account_unmapped;
    details = details;
  }

  abbrev pub judged : Kind N A → A → Verdict → Outcome
  judged kind x v = record {
    entity_id = kind.id x;
    status = v.status;
    reason = v.reason;
    details = v.rule;
  }

  unfoldable pub internal_outcome : Kind N A → ReconConfig N → List A → A → Outcome
  unfolding partner
  internal_outcome kind config custodian x = elim (partner kind.key (kind.key x) custodian) [
    | none ↦ unmatched kind kind.no_custodian x
    | some y ↦ judged kind x (judge kind config x y)
  ]

  -- The custodian's records that no internal record has the key of.
  unfoldable pub leftover : Kind N A → List A → List A → List A
  unfolding has_key
  leftover kind internal custodian =
      keep (λ y. not (has_key kind.key (kind.key y) internal)) custodian

  unfoldable pub outcomes : Kind N A → ReconConfig N → List A → List A → List Outcome
  unfolding internal_outcome leftover
  outcomes kind config internal custodian =
      map (internal_outcome kind config custodian) internal
      ++ map (unmatched kind kind.no_internal) (leftover kind internal custodian)

abbrev pub is_break : Outcome → Bool
is_break o = o.status == status_break

module _ {N : Type 0} ⦃env : Env⦄ where
  -- The outcomes persisted one after another, up to the first that fails.
  unfoldable pub persist_all : ReconRun → String → List Outcome → Exec N (Unit {0})
  persist_all run entity_type [] = pure tt
  persist_all run entity_type (o ∷ os) = do
    persist_result run o.entity_id entity_type o.status o.reason o.details
    persist_all run entity_type os
