-- ===== src/Enhancements.antt =====
-- api/internal/enhancements: what is mounted beside the core (EH-1 to EH-6).
pub mod Notify
pub mod Chase
pub mod Router
pub mod Content
pub mod Trends
pub mod Payments
pub mod Copilot
