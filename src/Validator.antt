-- ===== src/Validator.antt =====
-- The validator of ormas_subnet/validator.py.
pub mod Decide
pub mod Shapes
pub mod Protocol
pub mod Review
pub mod Poll
