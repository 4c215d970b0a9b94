-- ===== src/Recon/Fitting.antt =====
-- The types of record that the reason codes of internal/model/reason_codes.go are about, and the
-- reasons that the rules of internal/recon/rules.go give.
use trust_lot.Prelude.{String, Bool, true, false, not, ◌||◌, ◌==◌, ◌≡◌, refl, if◌then◌else◌}
use trust_lot.Platform.{Float64, Env}
use trust_lot.Model.ReasonCode.{
  pos_quantity_mismatch, pos_price_source_diff, txn_duplicate, txn_amount_mismatch,
  map_account_unmapped,
}
use trust_lot.Db.Tables.{ReconConfig}
use trust_lot.Recon.Rules.{Verdict}
use trust_lot.Recon.Persist.{code_or_empty}
use trust_lot.Recon.Engine.{Kind, judge, position_kind, transaction_kind}
use trust_lot.Recon.Verdicts.{
  quantity_off, value_off, looks_duplicate, amount_off, position_verdict_eq, transaction_verdict_eq,
}

abbrev pub is_position_code : String → Bool
is_position_code code = code == pos_quantity_mismatch || code == pos_price_source_diff

abbrev pub is_transaction_code : String → Bool
is_transaction_code code = code == txn_duplicate || code == txn_amount_mismatch

-- No reason of transactions on a position, and none of positions on a transaction.
abbrev pub fitting : String → String → Bool
fitting entity_type code =
    if entity_type == "position"
    then not (is_transaction_code code)
    else if entity_type == "transaction"
    then not (is_position_code code)
    else true

-- A kind whose rules give fitting reasons only.
pub record IsFitting {N A : Type 0} (kind : Kind N A) : Type 0 where
  pub judged :
      (config : ReconConfig N) (x y : A)
      → fitting kind.entity_type (code_or_empty (judge kind config x y).reason) ≡ true
  pub unmapped : fitting kind.entity_type map_account_unmapped ≡ true

abbrev Given : String → Verdict → Type 0
Given entity_type v = fitting entity_type (code_or_empty v.reason) ≡ true

-- One of three verdicts, all of which fit.
if-Given :
    (entity_type : String) (a b : Bool) (u v w : Verdict)
    → Given entity_type u
    → Given entity_type v
    → Given entity_type w
    → Given entity_type (if a then u else if b then v else w)
if-Given entity_type true b u v w hu hv hw = hu
if-Given entity_type false true u v w hu hv hw = hv
if-Given entity_type false false u v w hu hv hw = hw

module _ {N : Type 0} ⦃f : Float64 N⦄ ⦃env : Env⦄ where
  pub position_kind-IsFitting : IsFitting (position_kind {N = N})
  unfolding position_kind
  position_kind-IsFitting = record {
    judged = λ config p q.
        rw position_verdict_eq (
          if-Given "position" (quantity_off config p q) (value_off config p q) _ _ _ refl refl
            refl);
    unmapped = refl;
  }

  pub transaction_kind-IsFitting : IsFitting (transaction_kind {N = N})
  unfolding transaction_kind
  transaction_kind-IsFitting = record {
    judged = λ config s t.
        rw transaction_verdict_eq (
          if-Given "transaction" (looks_duplicate s t) (amount_off config s t) _ _ _ refl refl
            refl);
    unmapped = refl;
  }
