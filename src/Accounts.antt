-- ===== src/Accounts.antt =====
-- Accounts: the creation of a user (internal/service/user_create.go) and the sign-in
-- (internal/api/handler/auth.go).
pub mod Names
pub mod Rows
pub mod Create
pub mod Normal
pub mod Creates
pub mod Unique
pub mod Login
pub mod Sample
pub mod Tests
