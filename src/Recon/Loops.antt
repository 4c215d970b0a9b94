-- ===== src/Recon/Loops.antt =====
-- The two loops of internal/recon/engine.go against the outcomes of Recon.Outcomes.
mod Steps
mod Counts
use trust_lot.Prelude.{
  ℕ, ◌+◌, String, Bool, true, false, Option, none, some, ◌||◌, ◌&&◌, not, List, [], ◌∷◌, ◌++◌, map,
  ◌==◌, eq_iff, ◌≡◌, refl, sym, ◌∙◌, ap, fun_ext, inl, inr, arith, keep, length, All, lookup,
  insert, lookup-insert, contains, Option-cases, Bool-cases, if◌then◌else◌,
}
use trust_lot.Platform.{Env}
use trust_lot.Model.{ReconRun}
use trust_lot.Model.ReasonCode.{status_break, map_account_unmapped}
use trust_lot.Db.Tables.{ReconConfig}
use trust_lot.Db.Exec.{Exec, pure, ◌>>=◌, ◌>>◌}
use trust_lot.Db.Laws.{bind_assoc, pure-bind}
use trust_lot.Recon.Pairing.{build_map}
use trust_lot.Recon.Persist.{persist_result, persist_break}
use trust_lot.Recon.Engine.{
  Kind, Progress, nothing_yet, count_break, count_verdict, mark, judge, pair_internal,
  report_unmatched, reconcile_pairs,
}
use trust_lot.Recon.Outcomes.{
  Outcome, partner, has_key, unmatched, internal_outcome, leftover, outcomes, is_break, persist_all,
}
use trust_lot.Recon.Loops.Steps.{
  is_some, or_else, All-imp, lookup-build_map, has_partner, persist_all-append, advance,
  advance_one, matched-advance, pair_internal-eq, finished, fresh, report_unmatched-eq,
}
use trust_lot.Recon.Loops.Counts.{
  break_count, match_count, break_count-append, match_count-append, counts-advance, breaks-finished,
  matches-finished,
}

-- The loops' counters, and what they are to be.
abbrev pub counts : Progress → ℕ × ℕ
counts p = (p.matches, p.breaks)

unfoldable pub tally : List Outcome → ℕ × ℕ
unfolding match_count break_count
tally os = (match_count os, break_count os)

or_else-none {ℓ} : {A : Type ℓ} (o : Option A) → or_else o none ≡ o
or_else-none none = refl
or_else-none (some a) = refl

keep-congr {ℓ} :
    {A : Type ℓ} (p q : A → Bool) (xs : List A) → All (λ x. p x ≡ q x) xs → keep p xs ≡ keep q xs
keep-congr p q [] h = refl
keep-congr p q (x ∷ xs) h = rw (h.0, keep-congr p q xs h.1)

module _ {N A : Type 0} (kind : Kind N A) (config : ReconConfig N)
    (internal custodian : List A) where
  abbrev matched : Progress
  matched = advance kind config custodian nothing_yet internal

  -- The set `matched` skips just the records whose key an internal record has.
  fresh-matched : fresh kind matched custodian ≡ leftover kind internal custodian
  unfolding fresh leftover contains
  fresh-matched = keep-congr _ _ custodian (
      All-imp
        (λ y h.
          ground (arith, matched-advance kind config custodian (kind.key y) nothing_yet internal))
        custodian (has_partner kind.key custodian))

  counts-finished :
      counts (finished kind matched custodian) ≡ tally (outcomes kind config internal custodian)
  unfolding tally outcomes
  counts-finished = λ i. (same_matches i, same_breaks i)
    where
      os : List Outcome
      os = map (internal_outcome kind config custodian) internal

      ps : List Outcome
      ps = map (unmatched kind kind.no_internal) (leftover kind internal custodian)

      same_matches : (finished kind matched custodian).matches ≡ match_count (os ++ ps)
      same_matches = omega (
        arith,
        rw fresh-matched at (matches-finished kind matched custodian),
        (counts-advance kind config custodian nothing_yet internal).1,
        match_count-append os ps,
      )

      same_breaks : (finished kind matched custodian).breaks ≡ break_count (os ++ ps)
      same_breaks = omega (
        arith,
        rw fresh-matched at (breaks-finished kind matched custodian),
        (counts-advance kind config custodian nothing_yet internal).0,
        break_count-append os ps,
      )

  module _ ⦃env : Env⦄ (run : ReconRun) where
    -- The two loops report the outcomes in their order, and their counters are the number of the
    -- breaks and of the other outcomes.
    pub reconcile_pairs-eq :
        (reconcile_pairs kind config run internal custodian >>= λ p. pure (counts p)) ≡ (
          persist_all run kind.entity_type (outcomes kind config internal custodian)
          >> pure (tally (outcomes kind config internal custodian)))
    unfolding reconcile_pairs
    reconcile_pairs-eq =
        ap (λ k. k >>= (λ p. report_unmatched kind run p custodian) >>= λ p. pure (counts p))
          (pair_internal-eq kind config custodian run (build_map kind.key [] custodian) nothing_yet
            internal (λ k. lookup-build_map kind.key k [] custodian ∙ or_else-none _))
        ∙ simp (bind_assoc, pure-bind, report_unmatched-eq, fresh-matched, counts-finished)
            (unfold outcomes in simp (persist_all-append, bind_assoc))
