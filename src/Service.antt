-- ===== src/Service.antt =====
-- backend/app/service.py, the incident service, in its children.
pub mod Checks
pub mod Dispatch
pub mod Verify
pub mod Approve
pub mod Autonomous
pub mod Steps
pub mod Verdict
