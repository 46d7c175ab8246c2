-- ===== src/Judge/Tests.antt =====
-- Concrete runs of src/judge.
mod Output
mod Manager
mod Gate
