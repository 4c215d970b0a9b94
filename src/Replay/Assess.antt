-- ===== src/Replay/Assess.antt =====
-- What RunCase of internal/replay/service.go reports of a replay.
use trust_lot.Prelude.{
  String, Bool, true, false, Option, none, some, ◌&&◌, ◌||◌, not, [], ◌∷◌, ◌==◌, eq_iff, ◌≡◌, ◌≢◌,
  ◌↔◌, arith, concat, if◌then◌else◌,
}
use trust_lot.Model.ReasonCode.{status_break}
use trust_lot.Db.Tables.{ReplayCaseRow}

pub record ReplayRunResult : Type 0 where
  pub case_id : String
  pub actual_match_status : String
  pub actual_reason_code : String
  pub expected_match_status : String
  pub expected_reason_code : String
  pub changed : Bool
  pub regression : Bool
  pub improvement : Bool
  pub summary : String

abbrev with_reason : String → String → String
with_reason status reason =
    if not (reason == "") then concat (status ∷ "/" ∷ reason ∷ []) else status

-- The parameters are the case's expected status and reason, in place of its row.
unfoldable pub build_summary : Bool → Bool → Bool → String → String → String → String → String
build_summary changed improvement regression expected expected_reason actual actual_reason =
    if not changed
    then "Replay matched original outcome."
    else if improvement
    then concat
        ("Replay improved: " ∷ expected ∷ "/" ∷ expected_reason ∷ " became " ∷ actual ∷ "." ∷ [])
    else if regression
    then concat
        ("Replay regressed: " ∷ expected ∷ " became " ∷ with_reason actual actual_reason ∷ "." ∷ [])
    else concat (
        "Replay changed: "
        ∷ expected
        ∷ "/"
        ∷ expected_reason
        ∷ " became "
        ∷ with_reason actual actual_reason
        ∷ "."
        ∷ [])

abbrev pub reason_text : Option String → String
reason_text none = ""
reason_text (some rc) = rc

-- The status that RunCase gives to the case.
unfoldable pub new_status : ReplayRunResult → String
new_status r = if r.regression then "failing" else "passing"

module _ {N : Type 0} where
  unfoldable pub assess : String → ReplayCaseRow N → String × Option String → ReplayRunResult
  unfolding build_summary
  assess case_id row (actual, rc) =
      let reason = reason_text rc in
      let changed =
        not (actual == row.expected_match_status) || not (reason == row.expected_reason_code) in
      let was_break = row.expected_match_status == status_break in
      let is_break = actual == status_break in
      let improvement = changed && was_break && not is_break in
      let regression = changed && not (was_break && not is_break) && (not was_break && is_break) in
      record {
        case_id = case_id;
        actual_match_status = actual;
        actual_reason_code = reason;
        expected_match_status = row.expected_match_status;
        expected_reason_code = row.expected_reason_code;
        changed = changed;
        regression = regression;
        improvement = improvement;
        summary =
            build_summary changed improvement regression row.expected_match_status
              row.expected_reason_code actual reason;
      }

  -- A replay is unchanged just where status and reason are the expected ones; it is a regression just
  -- where a case that was no break is one, and an improvement just where a break is none. It is never
  -- both, and the case is failing just where it is a regression.
  pub assess_iff :
      (case_id : String) (row : ReplayCaseRow N) (actual : String) (rc : Option String)
      → let r = assess case_id row (actual, rc) in
        ((r.changed ≡ false)
          ↔ ((actual ≡ row.expected_match_status) × (reason_text rc ≡ row.expected_reason_code)))
        × ((r.regression ≡ true)
            ↔ ((row.expected_match_status ≢ status_break) × (actual ≡ status_break)))
        × ((r.improvement ≡ true)
            ↔ ((row.expected_match_status ≡ status_break) × (actual ≢ status_break)))
        × (r.improvement && r.regression ≡ false)
        × ((new_status r ≡ "failing") ↔ (r.regression ≡ true))
  unfolding assess new_status
  assess_iff case_id row actual rc = (
    ground (
      arith,
      eq_iff actual row.expected_match_status,
      eq_iff (reason_text rc) row.expected_reason_code,
    ),
    ground (
      arith,
      eq_iff actual row.expected_match_status,
      eq_iff row.expected_match_status status_break,
      eq_iff actual status_break,
    ),
    ground (
      arith,
      eq_iff actual row.expected_match_status,
      eq_iff row.expected_match_status status_break,
      eq_iff actual status_break,
    ),
    ground arith,
    ground (arith, eq_iff "failing" "passing"),
  )
