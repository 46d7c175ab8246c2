-- ===== src/Judge.antt =====
-- The judge: src/judge, one module per component.
pub mod Status
pub mod Message
pub mod Comparator
pub mod Deadline
pub mod Classification
pub mod Diagnostics
pub mod Executor
pub mod Host
pub mod Engine
pub mod Manager
pub mod Gate
mod Tests
