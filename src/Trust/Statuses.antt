-- ===== src/Trust/Statuses.antt =====
-- What the status of a match makes of the totals of internal/trust/scorer.go.
use trust_lot.Prelude.{
  ℕ, ◌≤◌, String, ◌==◌, eq_iff, ◌≡◌, arith, Bool-cases, inl, inr, if◌then◌else◌,
}
use trust_lot.Model.ReasonCode.{status_match, status_near_match, status_break}
use trust_lot.Trust.Rationale.{level}
use trust_lot.Trust.Scorer.{ReconInput, compute_components, compute_total}
use trust_lot.Trust.Bounds.{compute_total-bounds, match_total, near_match_total, break_total}

-- What a status leaves of the range of the totals.
abbrev pub least : String → ℕ
least status =
    if status == status_match
    then 4_700
    else if status == status_near_match
    then 3_650
    else if status == status_break
    then 1_500
    else 1_200

abbrev pub most : String → ℕ
most status =
    if status == status_match
    then 8_925
    else if status == status_near_match
    then 7_875
    else if status == status_break
    then 5_925
    else 8_925

total_within :
    (input : ReconInput)
    → let t = compute_total (compute_components input) in
      (least input.match_status ≤ t) × (t ≤ most input.match_status)
total_within input =
    let overall = compute_total-bounds input in
    elim (Bool-cases (input.match_status == status_match)) [
      | inl e ↦ simp e (
        (match_total input (ground (arith, eq_iff input.match_status status_match))).0,
        overall.2,
      )
      | inr e ↦ elim (Bool-cases (input.match_status == status_near_match)) [
        | inl e' ↦
            simp (e, e')
              (near_match_total input (ground (arith, eq_iff input.match_status status_near_match)))
        | inr e' ↦ elim (Bool-cases (input.match_status == status_break)) [
          | inl b ↦
              let within =
                break_total input (ground (arith, eq_iff input.match_status status_break)) in
              simp (e, e', b) (within.0, within.1)
          | inr b ↦ simp (e, e', b) (overall.1, overall.2)
        ]
      ]
    ]

-- The total of a match is at least 47 points, of a near match between 36.50 and 78.75, of a break
-- between 15 and 59.25, and of any other status between 12 and 89.25; buildRationale never calls a
-- match low trust nor a break high trust.
pub compute_total-within :
    (input : ReconInput)
    → let t = compute_total (compute_components input) in
      (least input.match_status ≤ t)
      × (t ≤ most input.match_status)
      × (¬ ((input.match_status ≡ status_match) × (level t ≡ "Low trust")))
      × (¬ ((input.match_status ≡ status_break) × (level t ≡ "High trust")))
compute_total-within input = (
  (total_within input).0,
  (total_within input).1,
  λ h. (match_total input h.0).1 h.1,
  λ h. (break_total input h.0).2 h.1,
)
