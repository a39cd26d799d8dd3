-- ===== src/Dashboard.antt =====
-- api/internal/dashboard/dashboard.go
use agentic_mudahurus.Shared.{ℕ, ◌&&◌, ◌==◌, length, select}
use agentic_mudahurus.Schema.{Uuid, pending, shipped}
use agentic_mudahurus.World.{Env, Action, ok, statement}
use agentic_mudahurus.Orders.Status.{status_eq}
use agentic_mudahurus.Tenancy.Identity.{Context, tid}

pub record Counts : Type 0 where
  pub orders : ℕ
  pub pending_orders : ℕ
  pub products : ℕ
  pub customers : ℕ
  pub shipped_orders : ℕ

-- the five counts of one statement
unfoldable pub load : Env → Uuid → Action Counts
load env tenant = statement env λ k db. (
  ok (record {
    orders = length (select (λ o. o.tenant_id == tenant) db.orders);
    pending_orders =
        length (select (λ o. o.tenant_id == tenant && status_eq o.status pending) db.orders);
    products = length (select (λ p. p.tenant_id == tenant) db.products);
    customers = length (select (λ c. c.tenant_id == tenant) db.customers);
    shipped_orders =
        length (select (λ o. o.tenant_id == tenant && status_eq o.status shipped) db.orders);
  }),
  db,
)

unfoldable pub counts : Env → Context → Action Counts
counts env ctx = load env (tid ctx)
