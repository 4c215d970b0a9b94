-- ===== src/Explain/Panics.antt =====
-- Panics of ExplainException of internal/explain/service.go: what its lookups return, and when the
-- type assertions of the builders fail.
use trust_lot.Prelude.{
  String, Bool, true, not, Option, none, some, List, [], ◌∷◌, ◌==◌, ◌≡◌, ◌≢◌, refl, subst, arith,
  All, find, Bool-cases, Option-cases, inl, inr,
}
use mathlib.Core.Option.{some-injective}
use trust_lot.Platform.{Float64, Env}
use trust_lot.Model.{Position, Transaction, ReconRun, ReconResult, Exception}
use trust_lot.Db.Exec.{Result, ok, err, World, on_error, query, ◌>>=◌}
use trust_lot.Db.Returns.{
  Good, Returns, Returns-pure, Returns-bind, Returns-bind_on, Good-proceed_on, Good-recover,
}
use trust_lot.Db.Exceptions.{get_exception}
use trust_lot.Explain.Report.{AnyRecord, a_position, a_transaction, Explanation}
use trust_lot.Explain.Service.{
  Pair, sides, found_position, found_transaction, explain_position_pair, explain_transaction_pair,
  explain_record_pair, explain_exception, pair_position, pair_transaction, with_run, with_result,
  no_result,
}
use trust_lot.Recon.Fitting.{is_position_code, is_transaction_code}
use trust_lot.Explain.Answers.{Names, fits, suits, build_explanation-Names}

module _ {N : Type 0} where
  -- Two records that a reason suits.
  abbrev BothSuit : String → Pair N → Type 0
  BothSuit code pair = (suits code pair.0 ≡ true) × (suits code pair.1 ≡ true)

  sides-BothSuit :
      (code source : String) (x : AnyRecord N) (paired : Option (AnyRecord N))
      → suits code (some x) ≡ true
      → suits code paired ≡ true
      → BothSuit code (sides source x paired)
  sides-BothSuit code source x paired hx hp = elim (Bool-cases (source == "internal")) [
    | inl e ↦ simp e (hx, hp)
    | inr e ↦ simp e (hp, hx)
  ]

  found_position-suits :
      (code : String) (r : Result (Position N))
      → not (is_transaction_code code) ≡ true
      → suits code (found_position r) ≡ true
  found_position-suits code (ok p) h = h
  found_position-suits code (err e) h = refl

  found_transaction-suits :
      (code : String) (r : Result (Transaction N))
      → not (is_position_code code) ≡ true
      → suits code (found_transaction r) ≡ true
  found_transaction-suits code (ok t) h = h
  found_transaction-suits code (err e) h = refl

module _ {N : Type 0} ⦃env : Env⦄ where
  position-Returns :
      (code entity_id : String) (run : ReconRun)
      → not (is_transaction_code code) ≡ true
      → (p : Result (Position N)) → Returns (BothSuit code) (pair_position entity_id run p)
  position-Returns code entity_id run h (err e) =
      Returns-bind _ _ _ λ second. Returns-pure _ _ (refl, found_position-suits code second h)
  position-Returns code entity_id run h (ok p) = Returns-bind _ _ _ λ q. Returns-pure _ _ (
      sides-BothSuit code p.source (a_position p) (found_position q) h
        (found_position-suits code q h))

  transaction-Returns :
      (code : String)
      → not (is_position_code code) ≡ true
      → (t : Result (Transaction N)) → Returns (BothSuit code) (pair_transaction t)
  transaction-Returns code h (err e) = Returns-pure _ _ (refl, refl)
  transaction-Returns code h (ok t) = Returns-bind _ _ _ λ u. Returns-pure _ _ (
      sides-BothSuit code t.source (a_transaction t) (found_transaction u) h
        (found_transaction-suits code u h))

  pair-Returns :
      (e : Exception) (run : ReconRun)
      → fits e ≡ true
      → Returns {N = N} (BothSuit e.reason_code) (explain_record_pair e run)
  unfolding explain_record_pair explain_position_pair explain_transaction_pair
  pair-Returns e run h = elim (Bool-cases (e.entity_type == "position")) [
    | inl k ↦
        rw k
          (Returns-bind _ _ _ λ p. position-Returns e.reason_code e.entity_id run (ground arith) p)
    | inr k ↦ elim (Bool-cases (e.entity_type == "transaction")) [
      | inl m ↦
          rw (k, m) (Returns-bind _ _ _ λ t. transaction-Returns e.reason_code (ground arith) t)
      | inr m ↦ rw (k, m) (Returns-pure _ _ (refl, refl))
    ]
  ]

IsAnswer : Option Explanation → Type 0
IsAnswer o = o ≢ none

Names-IsAnswer :
    (e : Exception) (r : ReconResult) (o : Option Explanation) → Names e r o → IsAnswer o
unfolding IsAnswer
Names-IsAnswer e r none h = absurd h
Names-IsAnswer e r (some x) h = λ k. absurd (ground arith)

find-All :
    {A : Type 0} (P : A → Type 0) (p : A → Bool) (xs : List A) (a : A)
    → All P xs
    → find p xs ≡ some a
    → P a
find-All P p [] a h k = absurd (ground arith)
find-All P p (x ∷ xs) a h k = elim (Bool-cases (p x)) [
  | inl e ↦ subst P (some-injective _ _ (rw e at k)) h.0
  | inr e ↦ find-All P p xs a h.1 (rw e at k)
]

not_none : (r : Result (Option Explanation)) → Good IsAnswer r → r ≢ ok none
unfolding IsAnswer
not_none (ok o) h k = h (ground arith)
not_none (err e) h k = absurd (ground arith)

module _ {N : Type 0} ⦃f : Float64 N⦄ ⦃env : Env⦄ where
  run-Returns :
      (e : Exception) (r : ReconResult)
      → fits e ≡ true
      → (found : Result ReconRun) → Returns {N = N} IsAnswer (with_run e r found)
  run-Returns e r h (err s) =
      Returns-pure _ _
        (Names-IsAnswer e r _ (build_explanation-Names {N = N} e r none none refl refl))
  run-Returns e r h (ok x) =
      Returns-bind_on (BothSuit e.reason_code) _ _ _ (pair-Returns e x h) λ pair suit.
        Returns-pure _ _
          (Names-IsAnswer e r _ (build_explanation-Names e r pair.0 pair.1 suit.0 suit.1))

  result-Returns :
      (e : Exception)
      → fits e ≡ true
      → (found : Result ReconResult) → Returns {N = N} IsAnswer (with_result e found)
  result-Returns e h (err s) = Returns-pure _ _ (
      Names-IsAnswer e no_result _
        (build_explanation-Names {N = N} e no_result none none refl refl))
  result-Returns e h (ok r) = Returns-bind _ _ _ λ x. run-Returns e r h x

  exception-Good :
      (id : String) (w : World N)
      → All (λ e. fits e ≡ true) w.tables.exceptions
      → Good (λ e. fits e ≡ true) (get_exception id w).0
  unfolding get_exception query on_error
  exception-Good id w h = elim (Option-cases (env.fault w.calls)) [
    | inl k ↦ elim (Option-cases (find (λ x. x.id == id) w.tables.exceptions)) [
      | inl m ↦ rw (k, m) tt
      | inr (e, m) ↦ rw (k, m) (find-All (λ e. fits e ≡ true) _ w.tables.exceptions e h m)
    ]
    | inr (s, k) ↦ rw k tt
  ]

  -- Whatever calls of the database fail: if no exception on a position has a reason of transactions,
  -- and none on a transaction a reason of positions, ExplainException does not panic.
  pub explain_exception-answers :
      (id : String) (w : World N)
      → All (λ e. fits e ≡ true) w.tables.exceptions
      → (explain_exception id w).0 ≢ ok none
  unfolding explain_exception ◌>>=◌ on_error
  explain_exception-answers id w h = not_none _ (
      Good-proceed_on (λ e. fits e ≡ true) IsAnswer _ _ _
        (Good-recover (λ e. fits e ≡ true) _ _ (exception-Good id w h))
        λ e k. Returns-bind _ _ _ λ found. result-Returns e k found)
