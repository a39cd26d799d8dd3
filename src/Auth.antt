-- ===== src/Auth.antt =====
-- api/internal/auth: accounts, their tokens and the guards of the routes.
pub mod Password
pub mod Tokens
pub mod Store
pub mod Service
pub mod Routes
