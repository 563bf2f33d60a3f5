-- ===== src/Host.antt =====
-- The host gateway (diagnostic_gateway), which runs the tools.
pub mod Ledger
pub mod Server
pub mod Once
pub mod Config
pub mod Scope
pub mod Exec
pub mod Operations
pub mod Network
pub mod Atlas
