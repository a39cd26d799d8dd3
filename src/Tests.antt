-- ===== src/Tests.antt =====
-- The theorems at concrete inputs, and runs of the code.
pub mod Fixtures
pub mod Orders
pub mod Invoice
pub mod Storage
pub mod Catalog
pub mod Auth
pub mod Requests
pub mod Customers
pub mod Storefront
pub mod Uploads
pub mod Enhancements
