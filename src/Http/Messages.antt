-- ===== src/Http/Messages.antt =====
-- internal/http: requests, answers and the server's fields. The bodies are values: their JSON is not
-- modelled, nor are the headers.
use trust_lot.Prelude.{ℕ, String, Bool, Option, none, some, List, ◌==◌, if◌then◌else◌}
use trust_lot.Prelude.Int.{ℤ, pos, negsuc}
use trust_lot.Model.{Exception}
use trust_lot.Db.Exec.{Error, Result, ok, err, World, Exec}
use trust_lot.Db.Recon.{ReconRunRow}
use trust_lot.Explain.Report.{Explanation}
use trust_lot.Trust.Service.{TrustScoreResult}
use trust_lot.Replay.Service.{ReplayCase, ReplayCaseDetail}
use trust_lot.Replay.Assess.{ReplayRunResult}
use trust_lot.Lineage.Graph.{LineageGraph}

-- What a handler reads of a request: the method, `r.URL.Query().Get` and `chi.URLParam`.
pub record Request : Type 0 where
  pub method : String
  pub path : String
  pub query : String → String

-- `strconv.Atoi`
pub record Numerals : Type 0 where
  pub atoi : String → Option ℤ

abbrev pub number_or : ℕ → Option ℤ → ℕ
number_or fallback (some (pos n)) = n
number_or fallback (some (negsuc n)) = fallback
number_or fallback none = fallback

unfoldable pub query_int : ⦃n : Numerals⦄ → Request → String → ℕ → ℕ
query_int ⦃n⦄ r key fallback =
    let v = r.query key in if v == "" then fallback else number_or fallback (n.atoi v)

-- `by_router` is the body of an answer of chi's own.
pub data Body (N : Type 0) : Type 0 where
  health : String → String → Body N
  exception_list : List Exception → ℕ → Body N
  one_exception : Exception → Body N
  not_implemented : String → Body N
  explanation : Explanation → Body N
  run_list : List ReconRunRow → ℕ → Body N
  score_list : List TrustScoreResult → ℕ → Body N
  trust_score : TrustScoreResult → Body N
  graph : LineageGraph N → Body N
  case_list : List ReplayCase → ℕ → Body N
  case_detail : ReplayCaseDetail N → Body N
  one_case : ReplayCase → Body N
  run_result : ReplayRunResult → Body N
  error : String → Body N
  no_body : Body N
  by_router : Body N

-- A handler writes a status and a body, or it panics.
pub data Reply (N : Type 0) : Type 0 where
  written : ℕ → Body N → Reply N
  panicked : Reply N

abbrev pub Handler : Type 0 → Type 0
Handler N = World N → Reply N × World N

abbrev pub write_json : {N : Type 0} → ℕ → Body N → Handler N
write_json status body w = (written status body, w)

-- `w.WriteHeader(status)`
abbrev pub write_header : {N : Type 0} → ℕ → Handler N
write_header status w = (written status no_body, w)

abbrev pub write_by_router : {N : Type 0} → ℕ → Handler N
write_by_router status w = (written status by_router, w)

-- `v, err := m; if err != nil { ... return }; ...`
abbrev pub reply_to : {N A : Type 0} → (Error → Reply N) → (A → Reply N) → Result A → Reply N
reply_to failed found (ok a) = found a
reply_to failed found (err e) = failed e

unfoldable pub answer : {N A : Type 0} → Exec N A → (Error → Reply N) → (A → Reply N) → Handler N
answer m failed found w = let (r, w') = m w in (reply_to failed found r, w')

-- Which of the server's fields are not nil.
pub record Server : Type 0 where
  pub store : Bool
  pub explainer : Bool
  pub replayer : Bool
  pub truster : Bool
  pub liner : Bool

-- The argument tells whether there is a store.
unfoldable pub new_server : Bool → Server
new_server store = record {
  store = store;
  explainer = store;
  replayer = store;
  truster = store;
  liner = store;
}
