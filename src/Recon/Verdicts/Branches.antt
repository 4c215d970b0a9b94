-- ===== src/Recon/Verdicts/Branches.antt =====
-- The verdicts that the rules of internal/recon/rules.go can reach, by the outcomes of their tests.
use trust_lot.Prelude.{
  String, Bool, true, false, none, some, not, eq_iff, ◌≡◌, refl, ◌≢◌, ◌↔◌, arith, sym,
  if◌then◌else◌,
}
use mathlib.Core.Option.{some-injective}
use trust_lot.Model.ReasonCode.{
  status_match, status_break, pos_quantity_mismatch, pos_price_source_diff, txn_duplicate,
  txn_amount_mismatch,
}
use trust_lot.Recon.Rules.{Verdict}

abbrev pub all_match : Verdict
all_match = record { status = status_match; reason = none; rule = "" }

abbrev pub broken : String → String → Verdict
broken reason rule = record { status = status_break; reason = some reason; rule = rule }

break_ne_match : ◌≢◌ {A = String} status_break status_match
break_ne_match = ground (arith, eq_iff status_break status_match)

quantity_ne_price : ◌≢◌ {A = String} pos_quantity_mismatch pos_price_source_diff
quantity_ne_price = ground (arith, eq_iff pos_quantity_mismatch pos_price_source_diff)

duplicate_ne_amount : ◌≢◌ {A = String} txn_duplicate txn_amount_mismatch
duplicate_ne_amount = ground (arith, eq_iff txn_duplicate txn_amount_mismatch)

-- The verdict of the position rules by the outcomes of their two tests.
abbrev pub by_tests : Bool → Bool → Verdict
by_tests a b =
    if a
    then broken pos_quantity_mismatch "position_quantity"
    else if b
    then broken pos_price_source_diff "position_price"
    else all_match

pub verdict_iff :
    (a b : Bool)
    → (((by_tests a b).status ≡ status_match) ↔ ((a ≡ false) × (b ≡ false)))
      × (((by_tests a b).reason ≡ some pos_quantity_mismatch) ↔ (a ≡ true))
      × (((by_tests a b).reason ≡ some pos_price_source_diff) ↔ ((a ≡ false) × (b ≡ true)))
verdict_iff true b = (
  (λ e. absurd (break_ne_match e), λ (e, _). cc),
  (λ _. refl, λ _. refl),
  (λ e. absurd (quantity_ne_price (some-injective _ _ e)), λ (e, _). cc),
)
verdict_iff false true = (
  (λ e. absurd (break_ne_match e), λ (_, e). cc),
  (λ e. absurd (quantity_ne_price (sym (some-injective _ _ e))), λ e. cc),
  (λ _. (refl, refl), λ _. refl),
)
verdict_iff false false =
    ((λ _. (refl, refl), λ _. refl), (λ e. cc, λ e. cc), (λ e. cc, λ (_, e). cc))

pub duplicate_iff :
    (same off : Bool)
    → ((if not same
          then broken txn_duplicate "transaction_duplicate"
          else if off
          then broken txn_amount_mismatch "transaction_amount"
          else all_match).reason
        ≡ some txn_duplicate)
      ↔ (same ≡ false)
duplicate_iff false off = (λ _. refl, λ _. refl)
duplicate_iff true true = (λ e. absurd (duplicate_ne_amount (sym (some-injective _ _ e))), λ e. cc)
duplicate_iff true false = (λ e. cc, λ e. cc)
