-- ===== src/Retry.antt =====
-- The loops of ormas_subnet/skeleton.py against an unreliable gateway: completion, lease renewal
-- and the pause after a refused claim.
pub mod Completion
pub mod Heartbeat
pub mod Backoff
mod Tests
