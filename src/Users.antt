-- ===== src/Users.antt =====
-- Accounts: the rules for names and passwords (src/db_gateway/user_gateway.go, gw_errors.go).
pub mod Credentials
pub mod Rules
mod Tests
