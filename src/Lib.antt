-- ===== src/Lib.antt =====
-- Verification library of the home server operations agent (Python): a private agent that
-- investigates incidents on one host and may run a few approved recovery actions.
--
-- The parts and how they meet. The backend (backend/app) keeps incidents, observations, hypotheses and
-- actions; an agent loop asks a language model for one decision at a time, checks every tool call
-- against a registry, and an incident service executes and verifies recovery actions. The host
-- gateway (diagnostic_gateway) runs the tools and consumes one signed approval for each write.
--
-- Which file models which part.
-- - Base: Python equality, comprehensions, string methods and exceptions that all parts share.
-- - Json: JSON values; Json/Matches is `matches` of backend/app/service.py.
-- - Topology: service profiles (backend/app/topology.py); Topology/Visit is the nested
--   depth-first `visit` of three callers, Topology/Reach relates it to reachability.
-- - Model: records of backend/app/models.py and settings of backend/app/config.py.
-- - Gateway: `validate_tool` and the allowlists of backend/app/gateway.py.
-- - Safety: `redact`, `disk_severity` and `evidence_confidence` of backend/app/safety.py, with
--   one child for what is proved of each.
-- - Failures: backend/app/failures.py.
-- - Routing: backend/app/routing.py; Routing/Granted says what its answers are made of.
-- - Store: the database and what operations take from outside, with the state-error monad of the
--   operations; Store/Keeps has the rules for what an operation keeps.
-- - Observations: `record_observation` of backend/app/agent.py.
-- - Agent: backend/app/agent.py: Agent/Propose `propose_action`, Agent/Hypotheses
--   `update_hypotheses`, Agent/Diagnosis `save_diagnosis`, Agent/Context `context`, Agent/Decide
--   the branches of a decision, Agent/Loop `_run` and `investigate`, Agent/State what these
--   share; Agent/Budget is backend/app/context.py. Agent/Kept, Agent/Sends and Agent/Steps prove
--   what each operation keeps, Agent/Bounded and Agent/Ended what a whole investigation does.
-- - Health: backend/app/application_health.py; Health/Statuses says what the status means.
-- - Service: backend/app/service.py: Service/Checks `verification_checks`, Service/Dispatch the
--   gateway call, Service/Verify `_verify`, Service/Approve `_approve` and `reject`,
--   Service/Autonomous `_execute_autonomous`, Service/Steps all commits as a step relation.
-- - Host: the host gateway: Host/Ledger is `ApprovalLedger` of diagnostic_gateway/safety.py,
--   Host/Server the request handler of diagnostic_gateway/main.py, Host/Config
--   diagnostic_gateway/config.py, Host/Scope and Host/Operations the scopes, writes and commands
--   of diagnostic_gateway/tools.py, Host/Exec `run_command`, Host/Network the resolvers and the
--   TLS probe of diagnostic_gateway/safety.py, Host/Atlas the Atlas diagnostic of tools.py.
-- - Autonomy: `authorize` and `profile_targets` of backend/app/autonomy.py; Autonomy/Admitted and
--   Autonomy/Shown say what state and what further evidence it asks for.
--
-- Conventions. Times are whole seconds, in Host/Network milliseconds; JSON floats are whole thousandths; identifiers are texts.
-- A Python exception is a value of `Error`; a `ValueError` carries its message. Third-party code is
-- a parameter: JSON Schema validation, HMAC, regular-expression redaction, the host's answers.
-- `visit` takes fuel for its depth; `suc` of the number of profiles is enough, which the
-- reachability theorem proves; `run_check` takes the number of further attempts, 6, 3 or 0 as in the
-- source; `loop` takes the number of decisions that are left, which starts at the smaller of
-- the two limits of the settings. Not modelled: model prompts and providers, HTTP transport, the
-- database engine, what host commands answer, the user interface.
pub mod Base
pub mod Json
pub mod Topology
pub mod Model
pub mod Gateway
pub mod Safety
pub mod Failures
pub mod Routing
pub mod Store
pub mod Observations
pub mod Agent
pub mod Health
pub mod Service
pub mod Host
pub mod Autonomy
pub mod Tests
