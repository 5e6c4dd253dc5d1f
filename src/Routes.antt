-- ===== src/Routes.antt =====
-- Routes: packages/core/src/cachepilot_core/route_intel.py (the identity of a route, and what a miss on
-- a changed route means) and route_affinity.py (when a route is kept, and for how long).
pub mod Intel
pub mod RoundTrip
pub mod Affinity
mod Examples
