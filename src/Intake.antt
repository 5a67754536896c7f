-- ===== src/Intake.antt =====
-- The intake checks of protected/worker/conformance/intake_check.py: paths and patterns of an
-- allowlist, and the patches that a worker hands in.
pub mod Segment
pub mod Paths
mod Tests
