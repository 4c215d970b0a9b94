-- ===== src/Recon/Rules.antt =====
-- internal/recon/rules.go and config.go: the tolerances, the rules, and ApplyRules of engine.go.
use trust_lot.Prelude.{
  String, Bool, true, false, Option, none, some, ◌&&◌, not, List, [], ◌∷◌, ◌==◌, eqb, if◌then◌else◌,
}
use trust_lot.Platform.{Float64}
use trust_lot.Model.{Position, Transaction}
use trust_lot.Model.ReasonCode.{
  status_match, status_break, pos_quantity_mismatch, pos_price_source_diff, txn_duplicate,
  txn_amount_mismatch,
}
use trust_lot.Db.Tables.{ReconConfig}

-- The records under comparison. The source holds them as `interface{}`; every caller passes the type
-- that its rules assert, so the type is an argument here.
pub record RuleContext (N A : Type 0) : Type 0 where
  pub internal : A
  pub custodian : A
  pub config : ReconConfig N

pub record Rule (N A : Type 0) : Type 0 where
  pub name : String
  pub evaluate : RuleContext N A → String × Option String

-- What ApplyRules returns: a status, a reason code that may be nil, the name of the rule that fired.
pub record Verdict : Type 0 where
  pub status : String
  pub reason : Option String
  pub rule : String

-- The result of a rule that tests for a break.
abbrev break_if : Bool → String → String × Option String
break_if true reason = (status_break, some reason)
break_if false reason = (status_match, none)

module _ {N : Type 0} ⦃f : Float64 N⦄ where
  unfoldable pub default_config : ReconConfig N
  default_config = record { price_tolerance = f.cent; quantity_tolerance = f.zero }

  unfoldable pub position_quantity_rule : Rule N (Position N)
  position_quantity_rule = record {
    name = "position_quantity";
    evaluate = λ c.
        break_if
          (f.gt (f.abs (f.sub c.internal.quantity c.custodian.quantity))
            c.config.quantity_tolerance)
          pos_quantity_mismatch;
  }

  unfoldable pub position_price_rule : Rule N (Position N)
  position_price_rule = record {
    name = "position_price";
    evaluate = λ c.
        break_if
          (f.gt (f.abs (f.sub c.internal.market_value c.custodian.market_value))
            c.config.price_tolerance)
          pos_price_source_diff;
  }

  unfoldable pub position_rules : List (Rule N (Position N))
  unfolding position_quantity_rule position_price_rule
  position_rules = position_quantity_rule ∷ position_price_rule ∷ []

  unfoldable pub transaction_duplicate_rule : Rule N (Transaction N)
  transaction_duplicate_rule = record {
    name = "transaction_duplicate";
    evaluate = λ c.
        break_if
          (c.internal.security_id == c.custodian.security_id
            && f.eq c.internal.quantity c.custodian.quantity
            && eqb c.internal.trade_date c.custodian.trade_date
            && not (c.internal.id == c.custodian.id)
            && not (f.eq c.internal.amount c.custodian.amount))
          txn_duplicate;
  }

  unfoldable pub transaction_amount_rule : Rule N (Transaction N)
  transaction_amount_rule = record {
    name = "transaction_amount";
    evaluate = λ c.
        break_if
          (f.gt (f.abs (f.sub c.internal.amount c.custodian.amount)) c.config.price_tolerance)
          txn_amount_mismatch;
  }

  unfoldable pub transaction_rules : List (Rule N (Transaction N))
  unfolding transaction_duplicate_rule transaction_amount_rule
  transaction_rules = transaction_duplicate_rule ∷ transaction_amount_rule ∷ []

module _ {N A : Type 0} where
  -- The first rule that does not answer MATCH decides.
  unfoldable pub apply_rules : List (Rule N A) → RuleContext N A → Verdict
  apply_rules [] c = record { status = status_match; reason = none; rule = "" }
  apply_rules (r ∷ rules) c =
      let rest = apply_rules rules c in
      let (status, reason) = r.evaluate c in
      if not (status == status_match)
      then record { status = status; reason = reason; rule = r.name }
      else rest
