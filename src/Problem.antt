-- ===== src/Problem.antt =====
-- Problems: src/problem, one module per component.
pub mod ListQuery
pub mod Tags
pub mod Json
pub mod Fields
pub mod Validation
pub mod TestcaseValidation
pub mod Tests
