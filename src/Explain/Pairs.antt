-- ===== src/Explain/Pairs.antt =====
-- The pair of records that internal/explain/service.go explains, against the one that
-- internal/replay/service.go captures.
use trust_lot.Prelude.{
  String, Option, none, some, ◌==◌, ◌≡◌, ◌≢◌, refl, ap, ◌∙◌, arith, Bool-cases, inl, inr,
}
use trust_lot.Platform.{Env}
use trust_lot.Model.{Position, Transaction, ReconRun}
use trust_lot.Db.Exec.{
  Error, Result, ok, err, World, Exec, recover, proceed, pure, on_error, attempt, ◌>>=◌,
}
use trust_lot.Db.Records.{
  get_position, get_transaction, find_paired_position, find_paired_transaction,
}
use trust_lot.Replay.Service.{by_side, or_nil, opposite, load_position_pair, load_transaction_pair}
use trust_lot.Explain.Report.{AnyRecord, a_position, a_transaction}
use trust_lot.Explain.Service.{
  Pair, sides, found_position, found_transaction, pair_position, pair_transaction,
  explain_position_pair, explain_transaction_pair,
}

-- The records of a pair as the builders take them.
abbrev of_type : {A B : Type 0} → (A → B) → Option A → Option B
of_type f none = none
of_type f (some a) = some (f a)

abbrev pub both_of : {N A : Type 0} → (A → AnyRecord N) → Option A × Option A → Pair N
both_of f pair = (of_type f pair.0, of_type f pair.1)

sides-by_side :
    {N A : Type 0} (f : A → AnyRecord N) (source : String) (x : A) (q : Option A)
    → sides source (f x) (of_type f q) ≡ both_of f (by_side source x q)
sides-by_side f source x q = elim (Bool-cases (source == "internal")) [
  | inl e ↦ simp e
  | inr e ↦ simp e
]

-- A pair that was loaded, as the builders take it.
abbrev as_loaded :
    {N A : Type 0}
    → (A → AnyRecord N)
    → Result (Option A × Option A) × World N
    → Result (Pair N) × World N
as_loaded f (ok pair, w) = (ok (both_of f pair), w)
as_loaded f (err e, w) = (err e, w)

ok-ne-err :
    {A W : Type 0} (e : Error) (a : A) (v w : W) → ◌≢◌ {A = Result A × W} (err e, v) (ok a, w)
ok-ne-err e a v w h = absurd (ground (arith, ap (λ x. x.0) h))

module _ {N : Type 0} ⦃env : Env⦄ where
  position_found :
      (r : Result (Position N)) → found_position r ≡ of_type (λ p. a_position p) (or_nil r)
  position_found (ok p) = refl
  position_found (err e) = refl

  transaction_found :
      (r : Result (Transaction N)) → found_transaction r ≡ of_type (λ t. a_transaction t) (or_nil r)
  transaction_found (ok t) = refl
  transaction_found (err e) = refl

  position_pair :
      (id : String) (run : ReconRun) (f : Error → Error) (r : Result (Position N)) (v u : World N)
      (pair : Option (Position N) × Option (Position N))
      → proceed
          (recover f r, v)
          (λ p.
            attempt
              (find_paired_position p.account_id p.security_id run.as_of_date (opposite p.source))
            >>= (λ q. pure (by_side p.source p (or_nil q))))
        ≡ (ok pair, u)
      → pair_position id run r v ≡ (ok (both_of (λ p. a_position p) pair), u)
  unfolding attempt pure ◌>>=◌
  position_pair id run f (err e) v u pair h = absurd (ok-ne-err (f e) pair v u h)
  position_pair id run f (ok p) v u pair h =
      let found =
        find_paired_position p.account_id p.security_id run.as_of_date (opposite p.source) v in
      ap (λ s. (ok s, found.1))
        (ap (sides p.source (a_position p)) (position_found found.0)
          ∙ sides-by_side (λ x. a_position x) p.source p (or_nil found.0))
      ∙ ap (as_loaded (λ x. a_position x)) h

  transaction_pair :
      (f : Error → Error) (r : Result (Transaction N)) (v u : World N)
      (pair : Option (Transaction N) × Option (Transaction N))
      → proceed
          (recover f r, v)
          (λ t.
            attempt (
              find_paired_transaction t.account_id t.security_id t.txn_type t.trade_date
                (opposite t.source))
            >>= (λ q. pure (by_side t.source t (or_nil q))))
        ≡ (ok pair, u)
      → pair_transaction r v ≡ (ok (both_of (λ t. a_transaction t) pair), u)
  unfolding attempt pure ◌>>=◌
  transaction_pair f (err e) v u pair h = absurd (ok-ne-err (f e) pair v u h)
  transaction_pair f (ok t) v u pair h =
      let found =
        find_paired_transaction t.account_id t.security_id t.txn_type t.trade_date
          (opposite t.source) v in
      ap (λ s. (ok s, found.1))
        (ap (sides t.source (a_transaction t)) (transaction_found found.0)
          ∙ sides-by_side (λ x. a_transaction x) t.source t (or_nil found.0))
      ∙ ap (as_loaded (λ x. a_transaction x)) h

-- The two types of records that are reconciled.
pub data RecordKind : Type 0 where
  of_positions : RecordKind
  of_transactions : RecordKind

-- A record of the type, and how the builders take it.
abbrev pub RecordOf : Type 0 → RecordKind → Type 0
RecordOf N of_positions = Position N
RecordOf N of_transactions = Transaction N

abbrev pub as_any : {N : Type 0} (kind : RecordKind) → RecordOf N kind → AnyRecord N
as_any of_positions p = a_position p
as_any of_transactions t = a_transaction t

module _ {N : Type 0} ⦃env : Env⦄ where
  -- The pair that the replay service loads, and the one that the explanation service loads.
  abbrev pub load_records :
      (kind : RecordKind)
      → String
      → ReconRun
      → Exec N (Option (RecordOf N kind) × Option (RecordOf N kind))
  load_records of_positions id run = load_position_pair id run
  load_records of_transactions id run = load_transaction_pair id run

  abbrev pub explain_records : RecordKind → String → ReconRun → Exec N (Pair N)
  explain_records of_positions id run = explain_position_pair id run
  explain_records of_transactions id run = explain_transaction_pair id

  -- An explanation is of the two records that a replay case captures, for positions and for transactions,
  -- on both sides and with a pair or without, whatever later calls of the database fail: where the replay
  -- service loads a pair of records of either type, the explanation service loads the same one from the
  -- same world, and leaves the same world.
  pub explained_as_captured :
      (kind : RecordKind) (id : String) (run : ReconRun) (w u : World N)
      (pair : Option (RecordOf N kind) × Option (RecordOf N kind))
      → load_records kind id run w ≡ (ok pair, u)
      → explain_records kind id run w ≡ (ok (both_of (as_any kind) pair), u)
  unfolding load_position_pair load_transaction_pair explain_position_pair explain_transaction_pair
      on_error attempt ◌>>=◌
  explained_as_captured of_positions id run w u pair h =
      position_pair id run _ (get_position id w).0 (get_position id w).1 u pair h
  explained_as_captured of_transactions id run w u pair h =
      transaction_pair _ (get_transaction id w).0 (get_transaction id w).1 u pair h
