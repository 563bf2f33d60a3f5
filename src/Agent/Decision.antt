-- ===== src/Agent/Decision.antt =====
-- `Decision` of backend/app/schemas.py, what the model may answer, and its validator. The length limits of the
-- fields are left out.
use home_ai_agent.Base.{
  ℕ, Bool, true, false, not, ◌&&◌, ◌||◌, Option, none, some, List, String, ◌==◌, string_eq,
  is_empty, Result, value_error, guard, ◌>>◌,
}
use home_ai_agent.Json.{Fields}
use home_ai_agent.Agent.Hypotheses.{HypothesisUpdate}

pub data DecisionType : Type 0 where
  tool_call execute_action diagnosis request_approval need_user_input stop : DecisionType

pub data Capability : Type 0 where
  known_tool missing_tool : Capability

pub record Remediation : Type 0 where
  pub tool : String
  pub arguments : Fields
  pub reason : String

-- the confidence is in thousandths
pub record Decision : Type 0 where
  pub decision_type : DecisionType
  pub tool : Option String
  pub arguments : Fields
  pub reason : String
  pub hypothesis_updates : List HypothesisUpdate
  pub root_cause : Option String
  pub confidence : ℕ
  pub evidence_observation_ids : List String
  pub summary : String
  pub remediation : List Remediation
  pub capability_status : Option Capability
  pub capability_gap : Option String
  pub missing_capability : String
  pub recommended_next_check : String

-- `bool(text)`
abbrev pub is_given : Option String → Bool
is_given none = false
is_given (some s) = not (s == "")

-- `decision_type in ('TOOL_CALL', 'EXECUTE_ACTION', 'REQUEST_APPROVAL')`
abbrev pub needs_tool : DecisionType → Bool
needs_tool tool_call = true
needs_tool execute_action = true
needs_tool request_approval = true
needs_tool _ = false

abbrev pub is_diagnosis : DecisionType → Bool
is_diagnosis diagnosis = true
is_diagnosis _ = false

abbrev pub is_missing : Option Capability → Bool
is_missing (some missing_tool) = true
is_missing _ = false

unfoldable pub validate_decision : Decision → Result (Unit {0})
unfolding string_eq
validate_decision d = do
  guard (not (needs_tool d.decision_type && not (is_given d.tool)))
      (value_error "Tool decisions require a tool name")
  guard
      (not (
        is_diagnosis d.decision_type
        && (not (is_given d.root_cause) || is_empty d.evidence_observation_ids)))
      (value_error "Diagnosis requires root_cause and current observation IDs")
  guard (not (is_missing d.capability_status && not (is_given d.capability_gap)))
      (value_error "MISSING_TOOL requires capability_gap")
  guard (not (is_given d.capability_gap && not (is_missing d.capability_status)))
      (value_error "capability_gap must be marked MISSING_TOOL")

-- the tool of a decision that needs one
abbrev pub tool_name : Decision → String
tool_name d = elim d.tool [ none ↦ "" | some t ↦ t ]

abbrev pub type_text : DecisionType → String
type_text tool_call = "TOOL_CALL"
type_text execute_action = "EXECUTE_ACTION"
type_text diagnosis = "DIAGNOSIS"
type_text request_approval = "REQUEST_APPROVAL"
type_text need_user_input = "NEED_USER_INPUT"
type_text stop = "STOP"

abbrev pub capability_text : Capability → String
capability_text known_tool = "KNOWN_TOOL"
capability_text missing_tool = "MISSING_TOOL"
