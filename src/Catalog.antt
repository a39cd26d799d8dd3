-- ===== src/Catalog.antt =====
-- api/internal/catalog: products and categories.
pub mod Slug
pub mod Repo
pub mod Service
pub mod Handler
