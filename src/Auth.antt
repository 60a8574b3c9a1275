-- ===== src/Auth.antt =====
-- services/auth-service: users, roles, access tokens and refresh tokens.
pub mod Domain
pub mod Ports
pub mod Service
pub mod Sessions
pub mod Logout
pub mod Refresh
pub mod Access
pub mod Http
pub mod Mysql
mod Example
pub mod Tests
