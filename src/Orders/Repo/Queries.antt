-- ===== src/Orders/Repo/Queries.antt =====
-- What the queries for one order return.
use agentic_mudahurus.Shared.{◌≡◌, some, List, ◌==◌, find, find-holds, arith}
use agentic_mudahurus.Schema.{Uuid, OrderRow, Order}
use agentic_mudahurus.World.{Env, World, ok, ◌>>=◌}
use agentic_mudahurus.Orders.Repo.{is_order, load_children, get, get_by_id}

load_children-row :
    (env : Env) (o : OrderRow) (w : World) (p : Order)
    → (load_children env o w).0 ≡ ok p
    → o ≡ p.row
unfolding load_children ◌>>=◌
load_children-row env o w p h = ground arith

-- An order that is read is the first row with that id and that tenant.
pub get-found :
    (env : Env) (t id : Uuid) (w : World) (o : Order)
    → (get env t id w).0 ≡ ok o
    → find (is_order t id) w.db.orders ≡ some o.row
unfolding get load_children ◌>>=◌
get-found env t id w o h = ground arith

pub get_by_id-found :
    (env : Env) (id : Uuid) (w : World) (o : Order)
    → (get_by_id env id w).0 ≡ ok o
    → find (λ p. p.id == id) w.db.orders ≡ some o.row
unfolding get_by_id load_children ◌>>=◌
get_by_id-found env id w o h = ground arith

pub found-tenant :
    (t id : Uuid) (rows : List OrderRow) (o : OrderRow)
    → find (is_order t id) rows ≡ some o
    → (o.id ≡ id) × (o.tenant_id ≡ t)
found-tenant t id rows o e =
    let holds = find-holds (is_order t id) rows o e in (ground arith, ground arith)
