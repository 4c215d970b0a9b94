-- ===== src/Replay/Unmatched.antt =====
-- What internal/replay/service.go makes of a case whose exception was an unmatched record: the rules
-- have no such reason, and the `null` of the missing record is read as a record of zeros.
use trust_lot.Prelude.{
  String, Bool, true, false, Option, none, some, eq_iff, ◌≡◌, ◌≢◌, subst, ◌∙◌, arith, Bool-cases,
  inl, inr, if◌then◌else◌,
}
use trust_lot.Platform.{Float64}
use trust_lot.Model.{Position, Transaction}
use trust_lot.Model.ReasonCode.{
  map_account_unmapped, pos_quantity_mismatch, pos_price_source_diff, txn_duplicate,
  txn_amount_mismatch,
}
use trust_lot.Db.Tables.{ReconConfig, Json, ReplayCaseRow}
use trust_lot.Db.Exec.{Result, ok, err}
use trust_lot.Recon.Verdicts.{
  position_verdict, transaction_verdict, position_verdict_eq, transaction_verdict_eq,
}
use trust_lot.Replay.Snapshots.{
  and_then, answer, replay_position, replay_transaction, replay_pair, replay_present,
  replay_from_snapshots,
}
use trust_lot.Replay.Assess.{assess, assess_iff, reason_text}

abbrev IsRuleReason : String × Option String → Type 0
IsRuleReason a = reason_text a.1 ≢ map_account_unmapped

abbrev Answers : Result (String × Option String) → Type 0
Answers (ok a) = IsRuleReason a
Answers (err e) = Unit

and_then-Answers :
    {A : Type 0} (r : Result A) (k : A → Result (String × Option String))
    → ((a : A) → Answers (k a))
    → Answers (and_then r k)
and_then-Answers (ok a) k h = h a
and_then-Answers (err e) k h = tt

if-Answers :
    (b : Bool) (m n : Result (String × Option String))
    → Answers m
    → Answers n
    → Answers (if b then m else n)
if-Answers true m n hm hn = hm
if-Answers false m n hm hn = hn

not_unmapped :
    (◌≢◌ {A = String} "" map_account_unmapped)
    × (◌≢◌ {A = String} pos_quantity_mismatch map_account_unmapped)
    × (◌≢◌ {A = String} pos_price_source_diff map_account_unmapped)
    × (◌≢◌ {A = String} txn_duplicate map_account_unmapped)
    × (◌≢◌ {A = String} txn_amount_mismatch map_account_unmapped)
not_unmapped = (
  ground (arith, eq_iff "" map_account_unmapped),
  ground (arith, eq_iff pos_quantity_mismatch map_account_unmapped),
  ground (arith, eq_iff pos_price_source_diff map_account_unmapped),
  ground (arith, eq_iff txn_duplicate map_account_unmapped),
  ground (arith, eq_iff txn_amount_mismatch map_account_unmapped),
)

module _ {N : Type 0} ⦃f : Float64 N⦄ where
  position-IsRuleReason :
      (config : ReconConfig N) (p q : Position N)
      → IsRuleReason (answer (position_verdict config p q))
  position-IsRuleReason config p q = rw position_verdict_eq (ground (arith, not_unmapped))

  transaction-IsRuleReason :
      (config : ReconConfig N) (s t : Transaction N)
      → IsRuleReason (answer (transaction_verdict config s t))
  transaction-IsRuleReason config s t = rw transaction_verdict_eq (ground (arith, not_unmapped))

  position-Answers : (i c : Json N) (config : ReconConfig N) → Answers (replay_position i c config)
  unfolding replay_position
  position-Answers i c config = search (and_then-Answers, position-IsRuleReason)

  transaction-Answers :
      (i c : Json N) (config : ReconConfig N) → Answers (replay_transaction i c config)
  unfolding replay_transaction
  transaction-Answers i c config = search (and_then-Answers, transaction-IsRuleReason)

  pair-Answers :
      (ty : String) (i c : Json N) (config : Option (Json N)) → Answers (replay_pair ty i c config)
  pair-Answers ty i c config =
      search (and_then-Answers, if-Answers, position-Answers, transaction-Answers)

  present-Answers :
      (row : ReplayCaseRow N) (i c : Option (Json N)) → Answers (replay_present row i c)
  present-Answers row (some i) (some c) = pair-Answers row.entity_type i c row.config_snapshot
  present-Answers row none c = tt
  present-Answers row (some i) none = tt

  -- A case whose expected reason is MAP_ACCOUNT_UNMAPPED is reported as changed by every replay that
  -- returns, whatever its snapshots: no replay gives this reason.
  pub unmatched-changed :
      (id : String) (row : ReplayCaseRow N) (actual : String × Option String)
      → row.expected_reason_code ≡ map_account_unmapped
      → replay_from_snapshots row ≡ ok actual
      → (assess id row actual).changed ≡ true
  unfolding replay_from_snapshots
  unmatched-changed id row actual expected replayed =
      let rule : IsRuleReason actual =
        subst Answers replayed (present-Answers row row.internal_snapshot row.custodian_snapshot) in
      elim (Bool-cases (assess id row actual).changed) [
        | inl e ↦ e
        | inr e ↦ absurd (rule (((assess_iff id row actual.0 actual.1).0.0 e).1 ∙ expected))
      ]
