-- ===== src/Churn.antt =====
-- packages/core/src/cachepilot_core/churn.py: which layer of a prompt broke a reusable prefix, and why.
pub mod Layers
pub mod Text
pub mod Cause
pub mod Divergence
pub mod Attribution
mod Examples
