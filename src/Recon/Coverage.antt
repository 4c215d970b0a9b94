-- ===== src/Recon/Coverage.antt =====
-- Which records the two loops of internal/recon/engine.go report, where the database serves every call.
use trust_lot.Prelude.{
  String, List, [], ◌∷◌, ◌++◌, map, ◌≡◌, refl, sym, ap, ◌∙◌, Option-cases, inl, inr,
}
use mathlib.Core.List.{map-append}
use trust_lot.Platform.{Env, IsHealthy}
use trust_lot.Model.{ReconRun}
use trust_lot.Db.Tables.{ReconConfig}
use trust_lot.Db.Exec.{World}
use trust_lot.Recon.Engine.{Kind, reconcile_pairs}
use trust_lot.Recon.Outcomes.{partner, unmatched, internal_outcome, leftover, outcomes}
use trust_lot.Recon.Recorded.{Reported, reported, report_of, recorded, results-recorded}
use trust_lot.Recon.Complete.{reconcile_pairs-healthy}

abbrev entity_of : Reported → String
entity_of r = r.entity_id

map-map :
    {A B C : Type 0} (g : B → C) (h : A → B) (xs : List A)
    → map g (map h xs) ≡ map (λ x. g (h x)) xs
map-map g h [] = refl
map-map g h (x ∷ xs) = ap (λ ys. g (h x) ∷ ys) (map-map g h xs)

module _ {N A : Type 0} (kind : Kind N A) (config : ReconConfig N) where
  internal_outcome-id :
      (custodian : List A) (x : A)
      → (internal_outcome kind config custodian x).entity_id ≡ kind.id x
  unfolding internal_outcome
  internal_outcome-id custodian x = elim (Option-cases (partner kind.key (kind.key x) custodian)) [
    | inl e ↦ rw (e, internal_outcome) refl
    | inr (y, e) ↦ rw (e, internal_outcome) refl
  ]

  internal-ids :
      (custodian xs : List A)
      → map (λ o. o.entity_id) (map (internal_outcome kind config custodian) xs) ≡ map kind.id xs
  internal-ids custodian [] = refl
  internal-ids custodian (x ∷ xs) =
      rw (internal_outcome-id custodian x) (ap (λ ys. kind.id x ∷ ys) (internal-ids custodian xs))

  unmatched-ids :
      (ys : List A)
      → map (λ o. o.entity_id) (map (unmatched kind kind.no_internal) ys) ≡ map kind.id ys
  unmatched-ids [] = refl
  unmatched-ids (y ∷ ys) = ap (λ ids. kind.id y ∷ ids) (unmatched-ids ys)

  outcomes-ids :
      (internal custodian : List A)
      → map (λ o. o.entity_id) (outcomes kind config internal custodian)
        ≡ map kind.id internal ++ map kind.id (leftover kind internal custodian)
  unfolding outcomes
  outcomes-ids internal custodian =
      map-append (λ o. o.entity_id) (map (internal_outcome kind config custodian) internal) _
      ∙ rw (internal-ids custodian internal, unmatched-ids (leftover kind internal custodian)) refl

  module _ ⦃env : Env⦄ (healthy : IsHealthy env) (run : ReconRun) (internal custodian : List A)
      (w : World N) where
    -- Where the database serves every call, the two loops add to recon_results one row for each
    -- internal record, in their order, then one for each custodian record whose key no internal
    -- record has, and no other.
    pub reconcile_pairs-covers :
        map
          (λ row. row.entity_id)
          (reconcile_pairs kind config run internal custodian w).1.tables.recon_results
        ≡ map (λ row. row.entity_id) w.tables.recon_results
          ++ (map kind.id internal ++ map kind.id (leftover kind internal custodian))
    reconcile_pairs-covers =
        let os = outcomes kind config internal custodian in
        let report = report_of run kind.entity_type in
        let (p, done, counted) =
          reconcile_pairs-healthy healthy kind config run internal custodian w in
        rw done (
          sym (map-map entity_of reported (recorded run kind.entity_type os w).tables.recon_results)
          ∙ ap (map entity_of) (results-recorded run kind.entity_type os w)
          ∙ map-append entity_of (map reported w.tables.recon_results) (map report os)
          ∙ rw (map-map entity_of reported w.tables.recon_results, map-map entity_of report os)
              (ap (λ ids. map (λ row. row.entity_id) w.tables.recon_results ++ ids)
                (outcomes-ids internal custodian)))
