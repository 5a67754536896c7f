-- ===== src/Validator/Shapes.antt =====
-- What ormas_subnet/validator.py requires of the parts of an assignment before it runs any of them.
pub mod Toolchain
pub mod Execution
mod Tests
