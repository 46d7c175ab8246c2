-- ===== src/Auth.antt =====
-- Accounts and access: src/auth, one module per component.
pub mod RateLimit
pub mod Validation
pub mod Context
pub mod Login
pub mod Authenticate
pub mod Register
pub mod PasswordChange
mod Tests
