-- ===== src/Domain.antt =====
-- internal/domain: the types of types.go, the errors of errors.go, and the rules of helpers.go.
pub mod Types
pub mod Errors
pub mod Rules
