-- ===== src/Plugin.antt =====
-- packages/hermes-plugin/src/cachepilot_hermes: what the plugin learns of commands. The registry of
-- targets is in Targets.
pub mod Words
pub mod Signature
pub mod Privacy
pub mod Durations
pub mod Hooks
pub mod Classifier
pub mod Middleware
pub mod Promotion
mod Examples
