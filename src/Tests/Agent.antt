-- ===== src/Tests/Agent.antt =====
-- The agent's hypotheses about the stopped container.
use home_ai_agent.Base.{false, [], ◌∷◌, All, string_eq}
use home_ai_agent.Model.{Hypothesis, active, eliminated}
use home_ai_agent.Agent.Hypotheses.{HypothesisUpdate, update_hypotheses}
use home_ai_agent.Agent.Hypotheses.Grounded.{IsGrounded, update_hypotheses-IsGrounded}
use home_ai_agent.Store.{Store}
use home_ai_agent.Tests.Recovery.{env, store}

abbrev suspected : Hypothesis
suspected = record {
  id = "h-1";
  incident_id = "i-1";
  description = "the container crashed";
  confidence = 300;
  status = active;
  supporting_observation_ids = [];
  contradicting_observation_ids = [];
}

abbrev guessing : Store
guessing = record store { hypotheses = suspected ∷ [] }

abbrev ruled_out : HypothesisUpdate
ruled_out = record {
  description = "The container crashed";
  confidence = 800;
  status = eliminated;
  supporting_observation_ids = [];
  contradicting_observation_ids = "o-1" ∷ [];
}

suspected-IsGrounded : All IsGrounded (suspected ∷ [])
suspected-IsGrounded = ((λ h. cc, λ h. cc), tt)

update_hypotheses-IsGrounded_example :
    All IsGrounded
      (update_hypotheses env (λ fs. false) "i-1" (ruled_out ∷ []) guessing).1.hypotheses
update_hypotheses-IsGrounded_example =
    update_hypotheses-IsGrounded env (λ fs. false) "i-1" (ruled_out ∷ []) guessing
      suspected-IsGrounded
