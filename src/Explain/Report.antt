-- ===== src/Explain/Report.antt =====
-- internal/explain/explain.go: the parts of an explanation, and what all explanations of an exception
-- share.
use trust_lot.Prelude.{String, List}
use trust_lot.Model.{Position, Transaction, Exception, ReconResult}

pub record EvidenceItem : Type 0 where
  pub label : String
  pub value : String

pub record FieldDiff : Type 0 where
  pub field : String
  pub internal_value : String
  pub custodian_value : String
  pub delta : String

pub record SuggestedAction : Type 0 where
  pub code : String
  pub label : String

pub record Explanation : Type 0 where
  pub exception_id : String
  pub recon_result_id : String
  pub entity_type : String
  pub match_status : String
  pub reason_code : String
  pub summary : String
  pub evidence : List EvidenceItem
  pub field_diffs : List FieldDiff
  pub suggested_actions : List SuggestedAction

-- A record of either type.
pub data AnyRecord (N : Type 0) : Type 0 where
  a_position : Position N → AnyRecord N
  a_transaction : Transaction N → AnyRecord N

abbrev pub item : String → String → EvidenceItem
item label value = record { label = label; value = value }

abbrev pub action : String → String → SuggestedAction
action code label = record { code = code; label = label }

-- The fields that all explanations of an exception share, with the given rest.
abbrev pub explained :
    Exception
    → ReconResult
    → String
    → List EvidenceItem
    → List FieldDiff
    → List SuggestedAction
    → Explanation
explained e r summary evidence field_diffs suggested_actions = record {
  exception_id = e.id;
  recon_result_id = r.id;
  entity_type = e.entity_type;
  match_status = r.status;
  reason_code = e.reason_code;
  summary = summary;
  evidence = evidence;
  field_diffs = field_diffs;
  suggested_actions = suggested_actions;
}
