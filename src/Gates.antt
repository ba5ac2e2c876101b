-- ===== src/Gates.antt =====
-- server/app/commands/gates.py: the preconditions of the robot commands.
pub mod Facts
pub mod Rules
pub mod Ready
pub mod Admission
pub mod FailClosed
pub mod Manual
pub mod ManualReady
pub mod Exclusive
mod Examples
