-- ===== src/Status.antt =====
-- server/app/telemetry/status.py: the robot status line and the system-health card.
pub mod Line
pub mod Card
pub mod Agreement
pub mod Overall
mod Examples
