-- ===== src/Submit.antt =====
-- Submissions: src/submit, one module per component.
pub mod Input
pub mod Status
pub mod PerCase
pub mod Service
pub mod Rejudge
mod Tests
