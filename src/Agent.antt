-- ===== src/Agent.antt =====
-- Parts of the agent (backend/app/agent.py) besides the recording of observations.
pub mod Propose
pub mod Proposed
pub mod Hypotheses
pub mod Decision
pub mod State
pub mod Diagnosis
pub mod Context
pub mod Decide
pub mod Loop
pub mod Kept
pub mod Sends
pub mod Steps
pub mod Bounded
pub mod Ended
pub mod Budget
