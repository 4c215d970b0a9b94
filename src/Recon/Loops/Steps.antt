-- ===== src/Recon/Loops/Steps.antt =====
-- One step of each of the two loops of internal/recon/engine.go, and all steps: what they persist, and
-- how the loops' variables advance.
use trust_lot.Prelude.{
  String, Bool, true, false, Option, none, some, ◌||◌, ◌&&◌, not, List, [], ◌∷◌, ◌++◌, map, ◌==◌,
  eq_iff, ◌≡◌, refl, sym, ◌∙◌, ap, fun_ext, inl, inr, arith, keep, All, lookup, insert,
  lookup-insert, contains, Option-cases, Bool-cases, if◌then◌else◌,
}
use trust_lot.Platform.{Env}
use trust_lot.Model.{ReconRun}
use trust_lot.Model.ReasonCode.{status_break, map_account_unmapped}
use trust_lot.Db.Tables.{ReconConfig}
use trust_lot.Db.Exec.{Exec, pure, ◌>>=◌, ◌>>◌}
use trust_lot.Db.Laws.{bind_assoc, pure-bind}
use trust_lot.Recon.Pairing.{build_map}
use trust_lot.Recon.Persist.{persist_result, persist_break}
use trust_lot.Recon.Engine.{
  Kind, Progress, count_break, count_verdict, mark, judge, pair_internal, report_unmatched,
}
use trust_lot.Recon.Outcomes.{Outcome, partner, has_key, unmatched, internal_outcome, persist_all}

abbrev pub is_some {ℓ} : {A : Type ℓ} → Option A → Bool
is_some none = false
is_some (some a) = true

pub All-imp {ℓ κ μ} :
    {A : Type ℓ} {P : A → Type κ} {Q : A → Type μ}
    → ((a : A) → P a → Q a)
    → (xs : List A) → All P xs
    → All Q xs
All-imp f [] h = tt
All-imp f (x ∷ xs) h = (f x h.0, All-imp f xs h.1)

abbrev pub or_else {ℓ} : {A : Type ℓ} → Option A → Option A → Option A
or_else none o = o
or_else (some a) o = some a

module _ {A : Type 0} (key : A → String) where
  -- The map holds the last record of each key.
  pub lookup-build_map :
      (k : String) (m : List (String × A)) (ys : List A)
      → lookup k (build_map key m ys) ≡ or_else (partner key k ys) (lookup k m)
  unfolding build_map partner
  lookup-build_map k m [] = refl
  lookup-build_map k m (y ∷ ys) =
      lookup-build_map k (insert (key y) y m) ys ∙ rw lookup-insert (ground (arith))

  partner-has_key :
      (k : String) (ys : List A) → has_key key k ys ≡ true → (y : A) × (partner key k ys ≡ some y)
  unfolding partner has_key
  partner-has_key k [] h = cc
  partner-has_key k (y ∷ ys) h = elim (Option-cases (partner key k ys)) [
    | inl e ↦ (y, ground (arith, partner-has_key k ys))
    | inr (z, e) ↦ (z, rw e)
  ]

  -- Each record's key is a key of the list.
  has_key_self : (ys : List A) → All (λ y. has_key key (key y) ys ≡ true) ys
  unfolding has_key
  has_key_self [] = tt
  has_key_self (y ∷ ys) =
      (ground (arith, eq_iff (key y) (key y)), All-imp (λ z h. ground arith) ys (has_key_self ys))

  pub has_partner : (ys : List A) → All (λ y. is_some (partner key (key y) ys) ≡ true) ys
  has_partner ys =
      All-imp (λ y h. ground (arith, partner-has_key (key y) ys h)) ys (has_key_self ys)

module _ {N : Type 0} ⦃env : Env⦄ where
  pub persist_all-append :
      (run : ReconRun) (ty : String) (os ps : List Outcome)
      → persist_all {N = N} run ty (os ++ ps) ≡ (persist_all run ty os >> persist_all run ty ps)
  unfolding persist_all
  persist_all-append run ty [] ps = sym (pure-bind tt (λ _. persist_all run ty ps))
  persist_all-append run ty (o ∷ os) ps =
      ap (λ k. persist_result run o.entity_id ty o.status o.reason o.details >>= k)
        (fun_ext λ _. persist_all-append run ty os ps)
      ∙ sym (bind_assoc _ _ _)

module _ {N A : Type 0} (kind : Kind N A) (config : ReconConfig N) (custodian : List A) where
  -- What one internal record makes of the loop's variables.
  unfoldable pub advance_one : Progress → A → Progress
  advance_one p x = elim (partner kind.key (kind.key x) custodian) [
    | none ↦ count_break p
    | some y ↦ count_verdict (judge kind config x y) (mark (kind.key x) p)
  ]

  unfoldable pub advance : Progress → List A → Progress
  advance p [] = p
  advance p (x ∷ xs) = advance (advance_one p x) xs

  matched-advance_one :
      (k : String) (p : Progress) (x : A)
      → contains k (advance_one p x).matched
        ≡ (contains k p.matched || (kind.key x == k && is_some (partner kind.key k custodian)))
  unfolding advance_one contains
  matched-advance_one k p x = ground (arith, eq_iff (kind.key x) k)

  pub matched-advance :
      (k : String) (p : Progress) (xs : List A)
      → contains k (advance p xs).matched ≡ (
          contains k p.matched || (has_key kind.key k xs && is_some (partner kind.key k custodian)))
  unfolding advance has_key
  matched-advance k p [] = ground arith
  matched-advance k p (x ∷ xs) =
      ground (arith, matched-advance k (advance_one p x) xs, matched-advance_one k p x)

  module _ ⦃env : Env⦄ (run : ReconRun) where
    report_internal : A → Exec N (Unit {0})
    report_internal x =
        let o = internal_outcome kind config custodian x in
        persist_result run o.entity_id kind.entity_type o.status o.reason o.details

    pair_internal-cons :
        (m : List (String × A)) (p : Progress) (x : A) (xs : List A)
        → lookup (kind.key x) m ≡ partner kind.key (kind.key x) custodian
        → pair_internal kind config run m p (x ∷ xs)
          ≡ (report_internal x >> pair_internal kind config run m (advance_one p x) xs)
    unfolding pair_internal internal_outcome advance_one persist_break report_internal
    pair_internal-cons m p x xs h = elim (Option-cases (partner kind.key (kind.key x) custodian)) [
      | inl e ↦ rw (h, e, pair_internal, internal_outcome, advance_one, report_internal)
      | inr (y, e) ↦ rw (h, e, pair_internal, internal_outcome, advance_one, report_internal)
    ]

    pub pair_internal-eq :
        (m : List (String × A)) (p : Progress) (xs : List A)
        → ((k : String) → lookup k m ≡ partner kind.key k custodian)
        → pair_internal kind config run m p xs ≡ (
            persist_all run kind.entity_type (map (internal_outcome kind config custodian) xs)
            >> pure (advance p xs))
    unfolding persist_all advance report_internal
    pair_internal-eq m p [] h = unfold pair_internal in sym (pure-bind tt (λ _. pure p))
    pair_internal-eq m p (x ∷ xs) h =
        pair_internal-cons m p x xs (h (kind.key x))
        ∙ ap (λ k. report_internal x >>= k) (fun_ext λ _. pair_internal-eq m (advance_one p x) xs h)
        ∙ sym (bind_assoc _ _ _)

module _ {N A : Type 0} (kind : Kind N A) where
  -- What the second loop makes of the loop's variables.
  unfoldable pub finished : Progress → List A → Progress
  finished p [] = p
  finished p (y ∷ ys) = finished (if contains (kind.key y) p.matched then p else count_break p) ys

  unfoldable pub fresh : Progress → List A → List A
  fresh p = keep (λ y. not (contains (kind.key y) p.matched))

  module _ ⦃env : Env⦄ (run : ReconRun) where
    pub report_unmatched-eq :
        (p : Progress) (ys : List A)
        → report_unmatched kind run p ys ≡ (
            persist_all run kind.entity_type (map (unmatched kind kind.no_internal) (fresh p ys))
            >> pure (finished p ys))
    unfolding report_unmatched persist_all finished fresh persist_break
    report_unmatched-eq p [] = sym (pure-bind tt (λ _. pure p))
    report_unmatched-eq p (y ∷ ys) = elim (Bool-cases (contains (kind.key y) p.matched)) [
      | inl e ↦ rw (e, report_unmatched, fresh, finished) (report_unmatched-eq p ys)
      | inr e ↦
          rw (e, report_unmatched, fresh, finished)
            (ap
                (λ k.
                  persist_result run (kind.id y) kind.entity_type status_break
                    (some map_account_unmapped) kind.no_internal
                  >>= k)
                (fun_ext λ _. report_unmatched-eq (count_break p) ys)
              ∙ sym (bind_assoc _ _ _))
    ]
