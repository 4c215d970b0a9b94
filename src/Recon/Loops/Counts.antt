-- ===== src/Recon/Loops/Counts.antt =====
-- The counters of the two loops of internal/recon/engine.go.
use trust_lot.Prelude.{
  ℕ, ◌+◌, not, List, [], ◌∷◌, ◌++◌, map, ◌≡◌, inl, inr, arith, keep, length, Option-cases,
  if◌then◌else◌,
}
use trust_lot.Db.Tables.{ReconConfig}
use trust_lot.Recon.Engine.{Kind, Progress, count_break}
use trust_lot.Recon.Outcomes.{Outcome, partner, unmatched, internal_outcome, is_break}
use trust_lot.Recon.Loops.Steps.{advance_one, advance, finished, fresh}

-- How many outcomes are breaks, and how many are not.
unfoldable pub break_count : List Outcome → ℕ
break_count os = length (keep is_break os)

unfoldable pub match_count : List Outcome → ℕ
match_count os = length (keep (λ o. not (is_break o)) os)

pub break_count-cons :
    (o : Outcome) (os : List Outcome)
    → break_count (o ∷ os) ≡ (if is_break o then 1 else 0) + break_count os
unfolding break_count
break_count-cons o os = ground arith

pub match_count-cons :
    (o : Outcome) (os : List Outcome)
    → match_count (o ∷ os) ≡ (if is_break o then 0 else 1) + match_count os
unfolding match_count
match_count-cons o os = ground arith

pub break_count-append :
    (os ps : List Outcome) → break_count (os ++ ps) ≡ break_count os + break_count ps
unfolding break_count
break_count-append [] ps = omega arith
break_count-append (o ∷ os) ps = ground (arith, break_count-append os ps)

pub match_count-append :
    (os ps : List Outcome) → match_count (os ++ ps) ≡ match_count os + match_count ps
unfolding match_count
match_count-append [] ps = omega arith
match_count-append (o ∷ os) ps = ground (arith, match_count-append os ps)

module _ {N A : Type 0} (kind : Kind N A) (config : ReconConfig N) (custodian : List A) where
  counts-advance_one :
      (p : Progress) (x : A)
      → ((advance_one kind config custodian p x).breaks
          ≡ p.breaks + (if is_break (internal_outcome kind config custodian x) then 1 else 0))
        × ((advance_one kind config custodian p x).matches
            ≡ p.matches + (if is_break (internal_outcome kind config custodian x) then 0 else 1))
  unfolding advance_one internal_outcome
  counts-advance_one p x = elim (Option-cases (partner kind.key (kind.key x) custodian)) [
    | inl e ↦ rw (e, advance_one, internal_outcome) (ground arith, ground arith)
    | inr (y, e) ↦ rw (e, advance_one, internal_outcome) (ground arith, ground arith)
  ]

  pub counts-advance :
      (p : Progress) (xs : List A)
      → ((advance kind config custodian p xs).breaks
          ≡ p.breaks + break_count (map (internal_outcome kind config custodian) xs))
        × ((advance kind config custodian p xs).matches
            ≡ p.matches + match_count (map (internal_outcome kind config custodian) xs))
  unfolding advance
  counts-advance p [] = unfold break_count match_count in omega arith
  counts-advance p (x ∷ xs) =
      let o = internal_outcome kind config custodian x in
      let os = map (internal_outcome kind config custodian) xs in
      omega (
        arith,
        counts-advance_one p x,
        counts-advance (advance_one kind config custodian p x) xs,
        break_count-cons o os,
        match_count-cons o os,
      )

module _ {N A : Type 0} (kind : Kind N A) where
  pub breaks-finished :
      (p : Progress) (ys : List A)
      → (finished kind p ys).breaks
        ≡ p.breaks + break_count (map (unmatched kind kind.no_internal) (fresh kind p ys))
  unfolding finished fresh break_count
  breaks-finished p [] = omega arith
  breaks-finished p (y ∷ ys) =
      ground (arith, breaks-finished p ys, breaks-finished (count_break p) ys)

  pub matches-finished :
      (p : Progress) (ys : List A)
      → (finished kind p ys).matches
        ≡ p.matches + match_count (map (unmatched kind kind.no_internal) (fresh kind p ys))
  unfolding finished fresh match_count
  matches-finished p [] = omega arith
  matches-finished p (y ∷ ys) =
      ground (arith, matches-finished p ys, matches-finished (count_break p) ys)
