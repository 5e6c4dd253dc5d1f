-- ===== src/Relay.antt =====
-- packages/relay/src/cachepilot_relay: what the relay reads off a request before it forwards it, and
-- the transport of a warm.
pub mod Endpoint
pub mod Observation
pub mod Equivalence
pub mod WarmExecutor
pub mod Routes
pub mod Recorder
pub mod Controller
pub mod Config
pub mod Proxy
mod Examples
