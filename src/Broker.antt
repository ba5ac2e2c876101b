-- ===== src/Broker.antt =====
-- server/app/commands/broker.py and server/app/commands/teleop.py: the life of a command from a
-- browser's request to its end, and the sessions of manual drive.
pub mod State
pub mod Manual
pub mod Drive
pub mod MovingFrame
pub mod Driven
pub mod Lifecycle
pub mod Admission
pub mod Checks
pub mod Publishing
pub mod Requests
pub mod Replies
pub mod Adds
pub mod Outputs
pub mod PublishOutputs
pub mod CheckOutputs
pub mod RequestOutputs
pub mod GateView
pub mod Guarded
pub mod Replay
pub mod ReplyOutputs
pub mod History
mod Examples
