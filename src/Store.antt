-- ===== src/Store.antt =====
-- server/app/telemetry/store.py: the state that the server keeps of one robot, and the alerts that
-- its telemetry raises.
pub mod State
pub mod Diagnostics
pub mod Records
pub mod Calls
pub mod Effects
pub mod Numbering
pub mod Sessions
pub mod Sources
mod Examples
