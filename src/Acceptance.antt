-- ===== src/Acceptance.antt =====
-- ormas_subnet/public_acceptance.py: the closed validation of the frozen acceptance policy and
-- claim plan. `copy.deepcopy` is the identity, as values here are immutable. A subscript that
-- follows the exact-key test of its dictionary cannot raise `KeyError`, so it is `get_or_null`.
pub mod Policy
pub mod Contract
pub mod Laws
pub mod Counts
pub mod Independence
mod Tests
