-- ===== src/Recon/Verdicts.antt =====
-- What the rules of internal/recon/rules.go decide, and ApplyRules over any rules.
mod Branches
pub use Branches.{all_match, broken}
use trust_lot.Prelude.{
  String, Bool, true, false, none, some, ◌&&◌, not, List, [], ◌∷◌, ◌++◌, ◌==◌, eq_iff, eqb, ◌≡◌,
  refl, ◌≢◌, ◌⊎◌, ◌↔◌, inl, inr, arith, All, Bool-cases, ap, sym, if◌then◌else◌,
}
use mathlib.Core.Option.{some-injective}
use trust_lot.Platform.{Float64, IsIeee}
use trust_lot.Model.{Position, Transaction}
use trust_lot.Model.ReasonCode.{
  status_match, status_break, pos_quantity_mismatch, pos_price_source_diff, txn_duplicate,
  txn_amount_mismatch,
}
use trust_lot.Db.Tables.{ReconConfig}
use trust_lot.Recon.Rules.{
  Rule, RuleContext, Verdict, apply_rules, default_config, position_rules, transaction_rules,
}
use trust_lot.Recon.Verdicts.Branches.{by_tests, verdict_iff, duplicate_iff}

module _ {N A : Type 0} where
  abbrev pub Passes : RuleContext N A → Rule N A → Type 0
  Passes c r = (r.evaluate c).0 ≡ status_match

  -- The first rule that does not answer MATCH gives the verdict, under its name; if all of them
  -- answer MATCH, the verdict is MATCH, with no reason and no name.
  pub apply_rules_first :
      (rules : List (Rule N A)) (c : RuleContext N A)
      → (All (Passes c) rules × (apply_rules rules c ≡ all_match))
        ⊎ ((front : List (Rule N A)) × (r : Rule N A) × (back : List (Rule N A)) × (rules
              ≡ front ++ r ∷ back)
            × All (Passes c) front
            × ((r.evaluate c).0 ≢ status_match)
            × (apply_rules rules c
                ≡ record { status = (r.evaluate c).0; reason = (r.evaluate c).1; rule = r.name }))
  unfolding apply_rules
  apply_rules_first [] c = inl (tt, refl)
  apply_rules_first (r ∷ rules) c = elim (Bool-cases ((r.evaluate c).0 == status_match)) [
    | inl e ↦ elim (apply_rules_first rules c) [
      | inl (all, v) ↦ inl (((eq_iff _ _).0 e, all), rw e v)
      | inr (front, q, back, split, all, stops, v) ↦
          inr (r ∷ front, q, back, ap (λ l. r ∷ l) split, ((eq_iff _ _).0 e, all), stops, rw e v)
    ]
    | inr e ↦ inr ([], r, rules, refl, tt, λ same. cc ((eq_iff _ _).1 same), rw e)
  ]

module _ {N : Type 0} ⦃f : Float64 N⦄ where
  abbrev pub position_verdict : ReconConfig N → Position N → Position N → Verdict
  position_verdict config p q =
      apply_rules position_rules (record { internal = p; custodian = q; config = config })

  abbrev pub transaction_verdict : ReconConfig N → Transaction N → Transaction N → Verdict
  transaction_verdict config s t =
      apply_rules transaction_rules (record { internal = s; custodian = t; config = config })

  -- The two differences that the position rules look at exceed their tolerances.
  abbrev pub quantity_off : ReconConfig N → Position N → Position N → Bool
  quantity_off config p q = f.gt (f.abs (f.sub p.quantity q.quantity)) config.quantity_tolerance

  abbrev pub value_off : ReconConfig N → Position N → Position N → Bool
  value_off config p q = f.gt (f.abs (f.sub p.market_value q.market_value)) config.price_tolerance

  pub position_verdict_eq :
      (config : ReconConfig N) (p q : Position N)
      → position_verdict config p q ≡ (
          if quantity_off config p q
          then broken pos_quantity_mismatch "position_quantity"
          else if value_off config p q
          then broken pos_price_source_diff "position_price"
          else all_match)
  unfolding apply_rules position_rules
  position_verdict_eq config p q = elim (Bool-cases (quantity_off config p q)) [
    | inl e ↦ rw e
    | inr e ↦ elim (Bool-cases (value_off config p q)) [ inl g ↦ rw (e, g) | inr g ↦ rw (e, g) ]
  ]

  -- The test of the duplicate rule.
  abbrev pub looks_duplicate : Transaction N → Transaction N → Bool
  looks_duplicate s t =
      s.security_id == t.security_id
      && f.eq s.quantity t.quantity
      && eqb s.trade_date t.trade_date
      && not (s.id == t.id)
      && not (f.eq s.amount t.amount)

  abbrev pub amount_off : ReconConfig N → Transaction N → Transaction N → Bool
  amount_off config s t = f.gt (f.abs (f.sub s.amount t.amount)) config.price_tolerance

  pub transaction_verdict_eq :
      (config : ReconConfig N) (s t : Transaction N)
      → transaction_verdict config s t ≡ (
          if looks_duplicate s t
          then broken txn_duplicate "transaction_duplicate"
          else if amount_off config s t
          then broken txn_amount_mismatch "transaction_amount"
          else all_match)
  unfolding apply_rules transaction_rules
  transaction_verdict_eq config s t = elim (Bool-cases (looks_duplicate s t)) [
    | inl e ↦ rw e
    | inr e ↦ elim (Bool-cases (amount_off config s t)) [ inl g ↦ rw (e, g) | inr g ↦ rw (e, g) ]
  ]

  -- The verdict on two positions: MATCH just where neither difference exceeds its tolerance, the
  -- reason POS_QUANTITY_MISMATCH just where the quantities differ by more than their tolerance, and
  -- POS_PRICE_SOURCE_DIFF just where the quantities do not and the market values do.
  pub position_verdict_iff :
      (config : ReconConfig N) (p q : Position N)
      → (((position_verdict config p q).status ≡ status_match)
          ↔ ((quantity_off config p q ≡ false) × (value_off config p q ≡ false)))
        × (((position_verdict config p q).reason ≡ some pos_quantity_mismatch)
            ↔ (quantity_off config p q ≡ true))
        × (((position_verdict config p q).reason ≡ some pos_price_source_diff)
            ↔ ((quantity_off config p q ≡ false) × (value_off config p q ≡ true)))
  position_verdict_iff config p q =
      rw position_verdict_eq (verdict_iff (quantity_off config p q) (value_off config p q))

  -- Two transactions of one security and day with unlike ids and equal quantities: the reason is
  -- TXN_DUPLICATE just where the amounts differ, by however little and under any tolerance.
  pub transaction_verdict_duplicate :
      (config : ReconConfig N) (s t : Transaction N)
      → s.id ≢ t.id
      → s.security_id ≡ t.security_id
      → s.trade_date ≡ t.trade_date
      → f.eq s.quantity t.quantity ≡ true
      → ((transaction_verdict config s t).reason ≡ some txn_duplicate)
        ↔ (f.eq s.amount t.amount ≡ false)
  transaction_verdict_duplicate config s t ids sec day qty =
      rw (transaction_verdict_eq, looks)
        (duplicate_iff (f.eq s.amount t.amount) (amount_off config s t))
    where
      looks : looks_duplicate s t ≡ not (f.eq s.amount t.amount)
      looks = ground (arith, eq_iff s.security_id t.security_id, eq_iff s.id t.id)

  position_verdict_comm :
      IsIeee f
      → (config : ReconConfig N) (p q : Position N)
      → position_verdict config p q ≡ position_verdict config q p
  position_verdict_comm laws config p q =
      rw (position_verdict_eq config p q, position_verdict_eq config q p)
        (ground (
          arith,
          laws.abs-sub_comm p.quantity q.quantity,
          laws.abs-sub_comm p.market_value q.market_value,
        ))

  transaction_verdict_comm :
      IsIeee f
      → (config : ReconConfig N) (s t : Transaction N)
      → transaction_verdict config s t ≡ transaction_verdict config t s
  transaction_verdict_comm laws config s t =
      rw (transaction_verdict_eq config s t, transaction_verdict_eq config t s)
        (ground (
          arith,
          laws.abs-sub_comm s.amount t.amount,
          laws.eq_comm s.amount t.amount,
          laws.eq_comm s.quantity t.quantity,
          eq_iff s.security_id t.security_id,
          eq_iff t.security_id s.security_id,
          eq_iff s.id t.id,
          eq_iff t.id s.id,
        ))

  -- Under the laws of IEEE 754, a verdict on two positions or on two transactions does not depend on
  -- which of the two is the custodian's.
  pub verdict_comm :
      IsIeee f
      → (config : ReconConfig N) (p q : Position N) (s t : Transaction N)
      → (position_verdict config p q ≡ position_verdict config q p)
        × (transaction_verdict config s t ≡ transaction_verdict config t s)
  verdict_comm laws config p q s t =
      (position_verdict_comm laws config p q, transaction_verdict_comm laws config s t)

  -- Under the default tolerances, positions with equal finite quantities and market values match.
  pub position_verdict_same :
      IsIeee f
      → (p q : Position N) → f.finite p.quantity ≡ true
      → f.finite p.market_value ≡ true
      → f.eq p.quantity q.quantity ≡ true
      → f.eq p.market_value q.market_value ≡ true
      → position_verdict default_config p q ≡ all_match
  unfolding default_config
  position_verdict_same laws p q fq fv eq ev = rw position_verdict_eq (
      ground (
        arith,
        laws.abs-sub_eq p.quantity q.quantity,
        laws.abs-sub_eq p.market_value q.market_value,
        laws.zero_not_gt,
        laws.zero_not_gt_cent,
      ))
