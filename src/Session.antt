-- ===== src/Session.antt =====
-- i2pchat/core/session_manager.py: the life cycle of the transport and of each peer.
pub mod State
pub mod Peers
pub mod Lifecycle
pub mod Streams
pub mod Health
pub mod Backoff
pub mod Policy
pub mod Shutdown
pub mod Calls
pub mod Views
pub mod Aggregate
