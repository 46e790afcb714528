-- ===== src/Auth.antt =====
-- internal/application/auth: the use cases of sign-up, sign-in, refresh, logout and authentication.
pub mod Ports
pub mod Tokens
pub mod Claims
pub mod Log
pub mod Issue
pub mod Refresh
pub mod Authenticate
pub mod Logout
pub mod Signin
