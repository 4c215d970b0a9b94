-- ===== src/Explain/Builders.antt =====
-- internal/explain/builders.go. The source holds the two records as `any`, nil where there is none; a
-- builder's type assertion panics on a record of the other type, which is `none` here.
use trust_lot.Prelude.{
  String, Bool, true, false, Option, none, some, List, [], ◌∷◌, ◌==◌, concat, if◌then◌else◌,
}
use trust_lot.Platform.{Float64, Env}
use trust_lot.Model.{Position, Transaction, Exception, ReconResult}
use trust_lot.Model.ReasonCode.{
  pos_quantity_mismatch, pos_price_source_diff, txn_duplicate, txn_amount_mismatch,
}
use trust_lot.Explain.Report.{
  EvidenceItem, FieldDiff, Explanation, AnyRecord, a_position, a_transaction, item, action,
  explained,
}

unfoldable pub paired_source : Bool → String
paired_source internal_missing = if internal_missing then "internal" else "custodian"

unfoldable pub explain_unmatched : Exception → ReconResult → Bool → Explanation
unfolding paired_source
explain_unmatched e r internal_missing =
    explained e r
      (concat (
        "Unmatched "
        ∷ e.entity_type
        ∷ " record: no paired "
        ∷ paired_source internal_missing
        ∷ " record found."
        ∷ []))
      (item "Reason Code" e.reason_code ∷ item "Entity ID" e.entity_id ∷ []) []
      (action "REVIEW_PENDING_ACTIVITY" "Review pending ingestion activity for missing record" ∷ [])

unfoldable pub explain_other : Exception → ReconResult → Explanation
explain_other e r =
    explained e r (concat ("Break detected: " ∷ e.reason_code ∷ "." ∷ []))
      (item "Reason Code" e.reason_code ∷ item "Rule" r.details ∷ []) []
      (action "REVIEW_PENDING_ACTIVITY" "Review pending activity and investigate manually" ∷ [])

module _ {N : Type 0} ⦃f : Float64 N⦄ where
  -- `%.4f`
  abbrev pub four : N → String
  four a = f.fixed 4 a

  abbrev pub diff : String → N → N → FieldDiff
  diff field a b = record {
    field = field;
    internal_value = four a;
    custodian_value = four b;
    delta = four (f.sub a b);
  }

  module _ ⦃env : Env⦄ (e : Exception) (r : ReconResult) where
    unfoldable pub build_pos_quantity_mismatch : Position N → Position N → Explanation
    build_pos_quantity_mismatch p q =
        explained e r
          (concat (
            "Position quantity mismatch: internal quantity "
            ∷ four p.quantity
            ∷ " vs custodian quantity "
            ∷ four q.quantity
            ∷ " (delta "
            ∷ four (f.sub p.quantity q.quantity)
            ∷ ")."
            ∷ []))
          (item "Account" p.account_id
            ∷ item "Security" p.security_id
            ∷ item "As-Of Date" (env.format_date p.as_of_date)
            ∷ item "Rule" r.details
            ∷ item "Internal Source" p.source
            ∷ item "Custodian Source" q.source
            ∷ [])
          (diff "quantity" p.quantity q.quantity ∷ [])
          (action "REVIEW_PENDING_ACTIVITY"
              "Check for pending transactions that may explain the difference"
            ∷ action "CHECK_LOT_RELIEF" "Verify tax-lot relief has been applied consistently"
            ∷ [])

    unfoldable pub build_pos_price_mismatch : Position N → Position N → Explanation
    build_pos_price_mismatch p q =
        explained e r
          (concat (
            "Position market value mismatch: internal "
            ∷ four p.market_value
            ∷ " vs custodian "
            ∷ four q.market_value
            ∷ " (delta "
            ∷ four (f.sub p.market_value q.market_value)
            ∷ ", tolerance exceeded)."
            ∷ []))
          (item "Account" p.account_id
            ∷ item "Security" p.security_id
            ∷ item "As-Of Date" (env.format_date p.as_of_date)
            ∷ item "Rule" r.details
            ∷ [])
          (diff "market_value" p.market_value q.market_value ∷ [])
          (action "CHECK_SOURCE_PRICE" "Compare pricing sources for this security"
            ∷ action "REVIEW_PENDING_ACTIVITY"
                "Check for intra-day price movements or stale pricing"
            ∷ [])

    -- The evidence of both transaction builders.
    abbrev trade_evidence : Transaction N → List EvidenceItem
    trade_evidence s =
        item "Account" s.account_id
        ∷ item "Security" s.security_id
        ∷ item "Trade Date" (env.format_date s.trade_date)
        ∷ item "Type" s.txn_type
        ∷ item "Rule" r.details
        ∷ []

    unfoldable pub build_txn_duplicate : Transaction N → Transaction N → Explanation
    build_txn_duplicate s t =
        explained e r
          (concat (
            "Duplicate transaction detected: same security "
            ∷ s.security_id
            ∷ ", quantity "
            ∷ four s.quantity
            ∷ ", trade date "
            ∷ env.format_date s.trade_date
            ∷ " with differing amounts."
            ∷ []))
          (trade_evidence s) (diff "amount" s.amount t.amount ∷ [])
          (action "CONFIRM_DUPLICATE" "Confirm whether custodian posted the same trade twice"
            ∷ action "LINK_CORRECTION_CHAIN" "Check if this is part of a cancel/correct sequence"
            ∷ [])

    unfoldable pub build_txn_amount_mismatch : Transaction N → Transaction N → Explanation
    build_txn_amount_mismatch s t =
        explained e r
          (concat (
            "Transaction amount mismatch: internal "
            ∷ four s.amount
            ∷ " vs custodian "
            ∷ four t.amount
            ∷ " (delta "
            ∷ four (f.sub s.amount t.amount)
            ∷ ")."
            ∷ []))
          (trade_evidence s)
          (diff "amount" s.amount t.amount
            ∷ (if f.gt (f.abs (f.sub s.quantity t.quantity)) f.zero
                then diff "quantity" s.quantity t.quantity ∷ []
                else []))
          (action "REVIEW_PENDING_ACTIVITY" "Check for pending corrections or fee adjustments"
            ∷ action "LINK_CORRECTION_CHAIN"
                "Look for a correction chain that may resolve this difference"
            ∷ [])

    -- The type assertions of a builder.
    abbrev pub of_positions :
        (Position N → Position N → Explanation) → AnyRecord N → AnyRecord N → Option Explanation
    of_positions build (a_position p) (a_position q) = some (build p q)
    of_positions build (a_position p) (a_transaction t) = none
    of_positions build (a_transaction s) y = none

    abbrev pub of_transactions :
        (Transaction N → Transaction N → Explanation)
        → AnyRecord N
        → AnyRecord N
        → Option Explanation
    of_transactions build (a_transaction s) (a_transaction t) = some (build s t)
    of_transactions build (a_transaction s) (a_position q) = none
    of_transactions build (a_position p) y = none

    -- The lookup in `builders` and the call of the builder.
    unfoldable pub explain_pair : AnyRecord N → AnyRecord N → Option Explanation
    unfolding explain_other build_pos_quantity_mismatch build_pos_price_mismatch build_txn_duplicate
        build_txn_amount_mismatch
    explain_pair x y =
        if e.reason_code == pos_quantity_mismatch
        then of_positions build_pos_quantity_mismatch x y
        else if e.reason_code == pos_price_source_diff
        then of_positions build_pos_price_mismatch x y
        else if e.reason_code == txn_duplicate
        then of_transactions build_txn_duplicate x y
        else if e.reason_code == txn_amount_mismatch
        then of_transactions build_txn_amount_mismatch x y
        else some (explain_other e r)

    unfoldable pub build_explanation :
        Option (AnyRecord N) → Option (AnyRecord N) → Option Explanation
    unfolding explain_pair explain_unmatched
    build_explanation none y = some (explain_unmatched e r true)
    build_explanation (some x) none = some (explain_unmatched e r false)
    build_explanation (some x) (some y) = explain_pair x y
