-- ===== src/Auth/Service/Reuse.antt =====
-- api/internal/auth/service.go: how often a token works.
pub mod Spent
pub mod Refresh
pub mod Mailed
pub mod Rotation
pub mod Reset
