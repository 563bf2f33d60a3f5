-- ===== src/Agent/Diagnosis.antt =====
-- `save_diagnosis` of backend/app/agent.py: a diagnosis whose evidence belongs to the incident is saved with the
-- confidence that the evidence allows, and its remediation is proposed. Of the report the plans and
-- the fixed notes are left out.
use home_ai_agent.Base.{
  ℕ, ◌*◌, Bool, true, false, not, ◌&&◌, Option, none, some, List, [], ◌∷◌, ◌++◌, String, ◌==◌,
  string_eq, contains, any, select, Result, ok, err, Error, value_error, message, if◌then◌else◌,
}
use home_ai_agent.Json.{
  Value, null, str, float, arr, obj, Items, nil, cons, Fields, end, field, insert,
}
use home_ai_agent.Json.Number.{pos}
use home_ai_agent.Model.{opened, Hypothesis}
use home_ai_agent.Gateway.{Registry}
use home_ai_agent.Observations.{redact_all}
use home_ai_agent.Safety.{redact_text}
use home_ai_agent.Safety.Confidence.{evidence_confidence}
use home_ai_agent.Service.Dispatch.{validate_evidence}
use home_ai_agent.Service.Autonomous.{id_list}
use home_ai_agent.Agent.Decision.{Decision, Remediation, type_text}
use home_ai_agent.Agent.Hypotheses.{is_eliminated}
use home_ai_agent.Agent.Propose.{propose_action}
use home_ai_agent.Agent.State.{Provider, load, update_state, merge}
use home_ai_agent.Store.{
  Env, Store, M, ◌>>=◌, ◌>>◌, pure, raise, gets, lift, result_of, set_incident, audit,
}

abbrev pub is_value_error : Error → Bool
is_value_error (value_error _) = true
is_value_error _ = false

abbrev pub optional_text : Option String → Value
optional_text none = null
optional_text (some s) = str s

-- `decision.model_dump()`
abbrev pub dump : Decision → Fields
dump d = field "decision_type" (str (type_text d.decision_type)) (
    field "root_cause" (optional_text d.root_cause) (
      field "confidence" (float (pos d.confidence)) (
        field "evidence_observation_ids" (id_list d.evidence_observation_ids)
          (field "summary" (str d.summary) (field "reason" (str d.reason) end)))))

-- a hypothesis that is not eliminated and shares supporting evidence with the diagnosis
abbrev is_related : List String → Hypothesis → Bool
is_related evidence h =
    not (is_eliminated h.status) && any (contains evidence) h.supporting_observation_ids

abbrev all_contradictions : List Hypothesis → List String
all_contradictions [] = []
all_contradictions (h ∷ hs) = h.contradicting_observation_ids ++ all_contradictions hs

-- `contradictions`
unfoldable pub contradictions_of : String → List String → Store → List String
unfolding string_eq
contradictions_of incident_id evidence s =
    all_contradictions
      (select (λ h. h.incident_id == incident_id && is_related evidence h) s.hypotheses)

module _ (e : Env) (p : Provider) (now : ℕ) (incident_id : String) where
  clean : String → String
  clean = redact_text e.secret_key e.scrub 16000

  abbrev clean_option : Option String → Option String
  clean_option none = none
  clean_option (some s) = some (clean s)

  unfoldable pub note_error : String → Result String → M Items → M Items
  note_error tool (ok _) rest = rest
  note_error tool (err x) rest =
      if is_value_error x
      then (do
        errors ← rest
        pure (cons (obj (field "tool" (str tool) (field "message" (str (message x)) end))) errors))
      else raise x

  -- the `action_errors` of the remediation; another exception than a `ValueError` passes
  unfoldable pub propose_all : Registry → List Remediation → M Items
  propose_all registry [] = pure nil
  propose_all registry (r ∷ rs) = do
    proposed ← result_of (propose_action e now incident_id registry r.tool r.arguments)
    note_error r.tool proposed (propose_all registry rs)

  -- the report and the verdict, in one commit
  unfoldable pub save_report : Decision → ℕ → M (Unit {0})
  unfolding clean
  save_report d confidence = set_incident incident_id (λ i. record i {
    root_cause = clean_option d.root_cause;
    root_cause_confidence = some confidence;
    summary = some (clean d.summary);
    report = insert "confidence" (float (pos confidence)) (redact_all e 16000 (dump d));
    status = opened;
    agent_state =
        merge i.agent_state (field "phase" (str "DIAGNOSED") (field "next_action" null end));
  })

  unfoldable pub note_errors : Items → M (Unit {0})
  note_errors nil = pure tt
  note_errors (cons v vs) =
      update_state e incident_id (field "remediation_not_executable" (arr (cons v vs)) end)

  unfoldable pub save_diagnosis : Registry → Decision → M (Unit {0})
  save_diagnosis registry d = do
    evidence ← λ s. lift (validate_evidence incident_id d.evidence_observation_ids s) s
    incident ← load e incident_id
    contradictions ← gets (contradictions_of incident_id d.evidence_observation_ids)
    save_report d (evidence_confidence p.failure_log evidence (1000 * d.confidence) contradictions)
    errors ←
        propose_all registry (if e.settings.enable_autonomous_actions then [] else d.remediation)
    note_errors errors
    audit incident_id "diagnosis"
