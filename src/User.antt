-- ===== src/User.antt =====
-- src/user: what an administrator asks for users.
pub mod Request
mod Tests
