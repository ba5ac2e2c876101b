-- ===== src/Protocol.antt =====
-- The typed payloads of server/app/protocol/messages.py that the modelled components read.
-- A `Literal` type is an enumeration, `float` is `Float`, `X | None` is `Option X`.
pub mod Telemetry
pub mod Commands
pub mod Rle
pub mod RoundTrip
mod Examples
