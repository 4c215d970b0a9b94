-- ===== src/Explain/Answers.antt =====
-- The explanations of BuildExplanation (internal/explain/builders.go), by reason and type of record.
use trust_lot.Prelude.{
  String, Bool, true, false, not, Option, none, some, ◌==◌, ◌≡◌, refl, arith, Bool-cases, inl, inr,
}
use trust_lot.Platform.{Float64, Env}
use trust_lot.Model.{Position, Transaction, ReconResult, Exception}
use trust_lot.Model.ReasonCode.{
  pos_quantity_mismatch, pos_price_source_diff, txn_duplicate, txn_amount_mismatch,
}
use trust_lot.Recon.Fitting.{is_position_code, is_transaction_code, fitting}
use trust_lot.Explain.Report.{AnyRecord, a_position, a_transaction, Explanation}
use trust_lot.Explain.Builders.{
  explain_unmatched, explain_other, explain_pair, build_explanation, build_pos_quantity_mismatch,
  build_pos_price_mismatch, build_txn_duplicate, build_txn_amount_mismatch,
}

-- No reason of transactions on a position, and none of positions on a transaction.
abbrev pub fits : Exception → Bool
fits e = fitting e.entity_type e.reason_code

-- An explanation of an exception and its result.
abbrev pub Names : Exception → ReconResult → Option Explanation → Type 0
Names e r none = ⊥
Names e r (some x) =
    (x.exception_id ≡ e.id)
    × (x.recon_result_id ≡ r.id)
    × (x.entity_type ≡ e.entity_type)
    × (x.match_status ≡ r.status)
    × (x.reason_code ≡ e.reason_code)

abbrev pub suits : {N : Type 0} → String → Option (AnyRecord N) → Bool
suits code none = true
suits code (some (a_position p)) = not (is_transaction_code code)
suits code (some (a_transaction t)) = not (is_position_code code)

module _ {N : Type 0} ⦃f : Float64 N⦄ ⦃env : Env⦄ where
  pair_of_positions :
      (e : Exception) (r : ReconResult) (p q : Position N)
      → not (is_transaction_code e.reason_code) ≡ true
      → Names e r (explain_pair e r (a_position p) (a_position q))
  unfolding explain_pair explain_other build_pos_quantity_mismatch build_pos_price_mismatch
  pair_of_positions e r p q h =
      let d : (e.reason_code == txn_duplicate) ≡ false = ground arith in
      let a : (e.reason_code == txn_amount_mismatch) ≡ false = ground arith in
      elim (Bool-cases (e.reason_code == pos_quantity_mismatch)) [
        | inl k ↦ simp k (refl, refl, refl, refl, refl)
        | inr k ↦ elim (Bool-cases (e.reason_code == pos_price_source_diff)) [
          | inl m ↦ simp (k, m) (refl, refl, refl, refl, refl)
          | inr m ↦ simp (k, m, d, a) (refl, refl, refl, refl, refl)
        ]
      ]

  pair_of_transactions :
      (e : Exception) (r : ReconResult) (s t : Transaction N)
      → not (is_position_code e.reason_code) ≡ true
      → Names e r (explain_pair e r (a_transaction s) (a_transaction t))
  unfolding explain_pair explain_other build_txn_duplicate build_txn_amount_mismatch
  pair_of_transactions e r s t h =
      let q : (e.reason_code == pos_quantity_mismatch) ≡ false = ground arith in
      let v : (e.reason_code == pos_price_source_diff) ≡ false = ground arith in
      elim (Bool-cases (e.reason_code == txn_duplicate)) [
        | inl k ↦ simp (q, v, k) (refl, refl, refl, refl, refl)
        | inr k ↦ elim (Bool-cases (e.reason_code == txn_amount_mismatch)) [
          | inl m ↦ simp (q, v, k, m) (refl, refl, refl, refl, refl)
          | inr m ↦ simp (q, v, k, m) (refl, refl, refl, refl, refl)
        ]
      ]

  -- Where the reason has no builder, the types of the records do not matter.
  pair_of_others :
      (e : Exception) (r : ReconResult) (x y : AnyRecord N)
      → not (is_transaction_code e.reason_code) ≡ true
      → not (is_position_code e.reason_code) ≡ true
      → Names e r (explain_pair e r x y)
  unfolding explain_pair explain_other
  pair_of_others e r x y h k =
      let q : (e.reason_code == pos_quantity_mismatch) ≡ false = ground arith in
      let v : (e.reason_code == pos_price_source_diff) ≡ false = ground arith in
      let d : (e.reason_code == txn_duplicate) ≡ false = ground arith in
      let a : (e.reason_code == txn_amount_mismatch) ≡ false = ground arith in
      simp (q, v, d, a) (refl, refl, refl, refl, refl)

  -- Where neither record is of the type that the reason is not about, BuildExplanation does not panic,
  -- and its explanation names the exception and the result.
  pub build_explanation-Names :
      (e : Exception) (r : ReconResult) (x y : Option (AnyRecord N))
      → suits e.reason_code x ≡ true
      → suits e.reason_code y ≡ true
      → Names e r (build_explanation e r x y)
  unfolding build_explanation explain_pair explain_unmatched explain_other
      build_pos_quantity_mismatch build_pos_price_mismatch build_txn_duplicate
      build_txn_amount_mismatch
  build_explanation-Names e r none y hx hy = (refl, refl, refl, refl, refl)
  build_explanation-Names e r (some x) none hx hy = (refl, refl, refl, refl, refl)
  build_explanation-Names e r (some (a_position p)) (some (a_position q)) hx hy =
      pair_of_positions e r p q hx
  build_explanation-Names e r (some (a_position p)) (some (a_transaction t)) hx hy =
      pair_of_others e r (a_position p) (a_transaction t) hx hy
  build_explanation-Names e r (some (a_transaction s)) (some (a_position q)) hx hy =
      pair_of_others e r (a_transaction s) (a_position q) hy hx
  build_explanation-Names e r (some (a_transaction s)) (some (a_transaction t)) hx hy =
      pair_of_transactions e r s t hx
