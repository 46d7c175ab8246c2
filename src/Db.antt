-- ===== src/Db.antt =====
-- The database: src/db, one module per store.
pub mod Tables
pub mod Columns
pub mod Rows
pub mod Connection
pub mod Problems
pub mod ProblemAdmin
pub mod TestcaseAdmin
pub mod Submissions
pub mod InFlight
pub mod Users
pub mod Tests
