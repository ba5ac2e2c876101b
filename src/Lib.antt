-- ===== src/Lib.antt =====
-- PatrolBot dashboard: the server between a mobile robot and the browsers that watch and drive it.
--
-- The robot's bridge sends telemetry, the hub keeps the latest slices and fans derived frames out
-- to browsers, and the command broker decides which browser requests reach the robot. The model
-- takes the decision logic of the server and of the robot's manual drive, one module per part:
--
--   Protocol      payloads and commands (server/app/protocol/messages.py)
--   Gates         admission rules of every command (server/app/commands/gates.py)
--   Status        status line and health card (server/app/telemetry/status.py)
--   Lease         operator lease (OperatorLease, server/app/commands/lease.py)
--   RateLimit     token buckets (RateLimiter, server/app/commands/lease.py)
--   Fanout        queue of one browser (BrowserClient, server/app/telemetry/hub.py)
--   TuningPolicy  speed policies (server/app/commands/tuning_policy.py)
--   Broker        command broker and manual drive (server/app/commands/broker.py, teleop.py)
--   Store         state of one robot (server/app/telemetry/store.py)
--   Hub           connections and telemetry of all robots (server/app/telemetry/hub.py)
--   Tuning        speed tuning broker (server/app/tuning/broker.py)
--   Bridge        the robot's own manual-drive session, hazards, drain and throttles (teleop.py and
--                 throttle.py of ros2_ws/src/patrolbot_web_bridge/patrolbot_web_bridge)
--   Writer        background writer (server/app/database/writer.py)
--   Recorder      recorder of telemetry (server/app/recordings/recorder.py)
--
-- A field or function keeps its name; a leading underscore is dropped. `None` is `none`, and a
-- message to the user is a constructor of the reasons of its component. Base holds what they
-- share: dictionaries as association lists, Boolean tests, text, and numbers.
--
-- Floating point: `Float` is a number in billionths or a nan or an infinity, with the comparisons
-- of IEEE 754 on those; sums are exact, so rounding is outside the model. Times are in billionths
-- of a second, and tokens of the rate limiter in 60 * 10^9ths, in which its division is exact.
-- Text is compared character by character and lower-cased in ASCII.
--
-- A call of the broker or of the hub runs to its end before the next one. What other tasks do while
-- a call awaits is not modelled: the database's lookup of a command id, the revoke of manual drive and
-- the close of the old socket when a robot's connection is replaced or lost, and the database's row
-- between the events of one call. The locks and the timers' clock are not modelled either. The
-- theorems on histories of the hub are stated so that they do not rest on the order of those steps. A
-- history of the broker is a list of calls and of changes from outside (sessions, clock, sends to
-- come), in any order. A call of the bridge's session holds its lock and reads the clock once; the
-- adapter's policy, the hazard, the outcomes of its publications and `uuid.UUID` are parameters of
-- it. The writer's worker tasks advance one event at a time, in any order, also while `stop` drains,
-- and so do the tasks of the tuning broker, each of whose awaits is a step. All loops are structural
-- recursions, so that no fuel is used.
--
-- Not modelled: the recomputation of status and health and the remaining fields of the store, browsers
-- connecting to the hub, the database, the texts, jobs and signature of tuning, authentication,
-- endpoints, the bridge's command executor and ROS node, the mock robot and the user interface.
pub mod Base
pub mod Protocol
pub mod Gates
pub mod Status
pub mod Store
pub mod Hub
pub mod Tuning
pub mod Lease
pub mod RateLimit
pub mod Fanout
pub mod TuningPolicy
pub mod Broker
pub mod Bridge
pub mod Writer
pub mod Recorder
