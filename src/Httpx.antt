-- ===== src/Httpx.antt =====
-- api/internal/httpx: what the handlers share.
pub mod Errors
pub mod Validation
pub mod Paging
pub mod Laws
