-- ===== src/Bridge.antt =====
-- The robot's side of manual drive, ros2_ws/src/patrolbot_web_bridge/patrolbot_web_bridge/teleop.py.
pub mod Policy
pub mod Session
pub mod Frame
pub mod Messages
pub mod Motion
pub mod History
pub mod WellFormed
pub mod Invariant
pub mod Watchdog
pub mod Errors
pub mod Safety
pub mod Clearance
pub mod Hold
pub mod Node
pub mod Barrier
pub mod Drain
pub mod Throttle
pub mod Settling
pub mod Examples
