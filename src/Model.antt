-- ===== src/Model.antt =====
-- The records of backend/app/models.py that the operations read and write, and the settings of
-- backend/app/config.py. Identifiers are texts, times are whole seconds,
-- percentages and confidences are in thousandths. `agent_state` keeps the
-- dict itself; interpretations and durations, which no operation tests, are left out.
use home_ai_agent.Base.{ℕ, Bool, Option, List, String}
use home_ai_agent.Json.Number.{ℤ}
use home_ai_agent.Json.{Fields}
use home_ai_agent.Topology.{Topology}

pub data IncidentStatus : Type 0 where
  opened investigating waiting_for_approval verifying resolved failed escalated : IncidentStatus

pub data ApprovalStatus : Type 0 where
  pending approved rejected expired auto_authorized : ApprovalStatus

pub data VerificationStatus : Type 0 where
  not_run passed failed blocked : VerificationStatus

pub data Phase : Type 0 where
  investigation remediation verification : Phase

pub record Incident : Type 0 where
  pub id : String
  pub title : String
  pub description : String
  pub service : String
  pub status : IncidentStatus
  pub resolved_at : Option ℕ
  pub root_cause : Option String
  pub root_cause_confidence : Option ℕ
  pub summary : Option String
  pub report : Fields
  pub agent_state : Fields

pub record Observation : Type 0 where
  pub id : String
  pub incident_id : String
  pub step_number : ℕ
  pub tool_name : String
  pub tool_arguments : Fields
  pub raw_result : Fields
  pub normalized_result : Fields
  pub phase : Phase
  pub created_at : ℕ

pub record Action : Type 0 where
  pub id : String
  pub incident_id : String
  pub tool_name : String
  pub arguments : Fields
  pub requires_approval : Bool
  pub approval_status : ApprovalStatus
  pub approved_at : Option ℕ
  pub executed_at : Option ℕ
  pub expires_at : ℕ
  pub result : Fields
  pub verification_status : VerificationStatus

pub record Settings : Type 0 where
  pub enable_write_actions : Bool
  pub enable_autonomous_actions : Bool
  pub autonomous_max_actions_per_incident : ℕ
  pub approval_ttl_seconds : ℕ
  pub agent_max_steps : ℕ
  pub agent_max_model_calls : ℕ
  pub agent_context_chars : ℕ
  pub rag_retrieve_after_observations : ℕ
  pub disk_warning_percent : ℤ
  pub disk_high_percent : ℤ
  pub disk_critical_percent : ℤ
  pub topology : Topology

pub data HypothesisStatus : Type 0 where
  active supported eliminated confirmed : HypothesisStatus

-- the confidence is in thousandths
pub record Hypothesis : Type 0 where
  pub id : String
  pub incident_id : String
  pub description : String
  pub confidence : ℕ
  pub status : HypothesisStatus
  pub supporting_observation_ids : List String
  pub contradicting_observation_ids : List String
