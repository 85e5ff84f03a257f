-- ===== src/Agent.antt =====
-- The panel's side of the SSH agent companion (BitwardenModel.js).
pub mod Protocol
pub mod Lines
pub mod Supervisor
pub mod Cooldown
pub mod VisibleText
pub mod Prompts
pub mod Queue
pub mod Grants
pub mod Lifecycle
