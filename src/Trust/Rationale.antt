-- ===== src/Trust/Rationale.antt =====
-- internal/trust/scorer.go: buildRationale. A subscore and a total are in hundredths, as in
-- Trust.Scorer.
use trust_lot.Prelude.{ℕ, String, List, [], ◌∷◌, ◌++◌, ◌==◌, leb, ltb, concat, if◌then◌else◌}
use trust_lot.Model.ReasonCode.{status_match, status_near_match, status_break}
use trust_lot.Trust.Scorer.{ScoreComponents}

unfoldable pub level : ℕ → String
level score =
    if leb 7500 score then "High trust" else if leb 4000 score then "Medium trust" else "Low trust"

abbrev status_part : String → List String
status_part status =
    if status == status_match
    then "matched reconciliation result" ∷ []
    else if status == status_near_match
    then "near-match reconciliation result" ∷ []
    else if status == status_break
    then "reconciliation break" ∷ []
    else []

abbrev freshness_part : ℕ → List String
freshness_part freshness =
    if leb 90 freshness
    then "same-day data" ∷ []
    else if leb freshness 30
    then "stale data" ∷ []
    else []

abbrev completeness_part : ℕ → List String
completeness_part completeness =
    if leb 100 completeness
    then "complete record fields" ∷ []
    else if ltb completeness 75
    then "missing record fields" ∷ []
    else []

abbrev exception_part : String → List String
exception_part exception_status =
    if exception_status == "open"
    then "open exception pending review" ∷ []
    else if exception_status == "acknowledged"
    then "exception acknowledged but not resolved" ∷ []
    else if exception_status == "resolved"
    then "exception resolved" ∷ []
    else []

abbrev penalty_part : ℕ → List String
penalty_part penalty = if leb 30 penalty then "significant anomaly penalty applied" ∷ [] else []

unfoldable pub rationale_parts : ScoreComponents → String → String → List String
rationale_parts c status exception_status =
    status_part status
    ++ freshness_part c.freshness
    ++ completeness_part c.completeness
    ++ exception_part exception_status
    ++ penalty_part c.anomaly_penalty

-- `strings.Join(parts, " and ")`
unfoldable pub join_and : List String → String
join_and [] = ""
join_and (s ∷ []) = s
join_and (s ∷ ss) = concat (s ∷ " and " ∷ join_and ss ∷ [])

unfoldable pub build_rationale : ℕ → ScoreComponents → String → String → String
unfolding level rationale_parts join_and
build_rationale score c status exception_status =
    let joined = join_and (rationale_parts c status exception_status) in
    let detail = if joined == "" then "standard conditions" else joined in
    concat (level score ∷ ": " ∷ detail ∷ "." ∷ [])
