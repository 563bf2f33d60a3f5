-- ===== src/Tests.antt =====
-- Concrete runs of the model, and instances of its theorems.
mod Autonomous
mod Recovery
mod Policies
mod Host
mod Agent
mod Health
mod Loop
mod Gateway
mod Atlas
