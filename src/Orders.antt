-- ===== src/Orders.antt =====
-- api/internal/orders: orders, their items and payments, and the invoice.
pub mod Status
pub mod Repo
pub mod Service
pub mod Invoice
pub mod Handler
