-- ===== src/Orders/Repo.antt =====
-- api/internal/orders/repo.go: each query as its effect on the tables, with the constraints of
-- migrations/000003_orders.up.sql. Rows of one creation time are listed in table order.
pub mod Isolation
pub mod Queries
pub mod Creation
pub mod Book
pub mod Failures
pub mod Refinement
use agentic_mudahurus.Shared.{
  ℕ, ◌+◌, ◌*◌, Bool, true, false, Option, none, some, List, [], ◌∷◌, ◌++◌, map, not, ◌&&◌, ◌||◌,
  if◌then◌else◌, ltb, leb, ◌==◌, length, any, select, find, update_where, delete_where, order_by,
  Text, is_empty, ◌/◌, ◌%◌,
}
use agentic_mudahurus.Shared.Int.{ℤ, pos, ◌+ℤ◌, ◌*ℤ◌, pos_part, leb_ℤ, is_zero_ℤ}
use agentic_mudahurus.Schema.{
  Uuid, Time, Status, pending, expired, ShippingAddress, OrderRow, OrderItem, Order, PaymentStatus,
  submitted, PaymentRow, Payment, Db,
}
use agentic_mudahurus.World.{
  Error, not_found, Result, ok, err, World, Env, Action, statement, require, pure, transaction,
  time_now, ◌>>=◌, ◌>>◌, limit_offset, affected, inserted, price_fits, numeric_fits, refers,
}
use agentic_mudahurus.Catalog.Repo.{has_tenant}
use agentic_mudahurus.Orders.Status.{status_eq, is_order_status}

-- ---- Create ----

-- the loop over `o.Items`: each line's total, and their sum, in the whole sen that the database rounds the
-- code's float64s to
unfoldable pub fill_totals : List OrderItem → List OrderItem
fill_totals [] = []
fill_totals (i ∷ is) = record i { line_total = i.quantity *ℤ i.unit_price } ∷ fill_totals is

unfoldable pub sum_totals : ℤ → List OrderItem → ℤ
sum_totals total [] = total
sum_totals total (i ∷ is) = sum_totals (total +ℤ i.line_total) is

-- 72 hours
abbrev pub expiry_window : Time
expiry_window = 72 * 3600

-- `if o.ExpiredDate.IsZero() { … }`
unfoldable pub expiry : Env → Time → Action Time
expiry env expired_date =
    if expired_date == 0
    then (do now ← time_now env; pure (now + expiry_window))
    else pure expired_date

order_fits : Db → OrderRow → Bool
order_fits db o =
    not (any (λ x. x.id == o.id) db.orders)
    && has_tenant db o.tenant_id
    && refers (λ c. any (λ x. x.id == c) db.customers) o.customer_id
    && is_order_status o.status
    && price_fits o.total_price

unfoldable pub insert_order : Env → OrderRow → Action OrderRow
unfolding order_fits
insert_order env o = statement env λ k db.
    let p : OrderRow = record o { id = env.uuid k; created_at = env.now k } in
    inserted (order_fits db p) p (record db { orders = db.orders ++ p ∷ [] }) db

-- quantity INTEGER CHECK (quantity > 0)
abbrev quantity_fits : ℤ → Bool
quantity_fits q = leb_ℤ (pos 1) q && leb_ℤ q (pos 2147483647)

item_fits : Db → OrderItem → Bool
item_fits db i =
    not (any (λ x. x.id == i.id) db.order_items)
    && any (λ o. o.id == i.order_id) db.orders
    && refers (λ p. any (λ x. x.id == p) db.products) i.product_id
    && quantity_fits i.quantity
    && price_fits i.unit_price
    && numeric_fits i.line_total

-- An amount in whole sen fits NUMERIC(12,2) without rounding.
unfoldable pub insert_item : Env → Uuid → OrderItem → Action OrderItem
unfolding item_fits
insert_item env order i = statement env λ k db.
    let j : OrderItem = record i { id = env.uuid k; order_id = order } in
    inserted (item_fits db j) j (record db { order_items = db.order_items ++ j ∷ [] }) db

unfoldable pub insert_items : Env → Uuid → List OrderItem → Action (List OrderItem)
insert_items env order [] = pure []
insert_items env order (i ∷ is) = do
  j ← insert_item env order i
  js ← insert_items env order is
  pure (j ∷ js)

-- `if o.TotalPrice == 0 { o.TotalPrice = total }`
abbrev total_or : ℤ → ℤ → ℤ
total_or price total = if is_zero_ℤ price then total else price

abbrev pub priced : OrderRow → List OrderItem → Time → OrderRow
priced o items date = record o {
  total_price = total_or o.total_price (sum_totals (pos 0) items);
  expired_date = date;
}

abbrev pub create_body : Env → OrderRow → List OrderItem → Action Order
create_body env o items = do
  date ← expiry env o.expired_date
  row ← insert_order env (priced o (fill_totals items) date)
  stored ← insert_items env row.id (fill_totals items)
  pure (record { row = row; items = stored; payments = [] })

unfoldable pub create : Env → OrderRow → List OrderItem → Action Order
unfolding expiry
create env o items = transaction env (create_body env o items)

-- ---- updates ----

-- WHERE id=$1 AND tenant_id=$2
abbrev pub is_order : Uuid → Uuid → OrderRow → Bool
is_order tenant id o = o.id == id && o.tenant_id == tenant

abbrev pub with_status : Status → OrderRow → OrderRow
with_status status o = record o { status = status }

unfoldable pub update_status : Env → Uuid → Uuid → Status → Action (Unit {0})
update_status env tenant id status = statement env λ k db.
    affected (any (is_order tenant id) db.orders) (is_order_status status) tt
      (record db { orders = update_where (is_order tenant id) (with_status status) db.orders }) db

abbrev pub with_details : OrderRow → OrderRow → OrderRow
with_details o p = record p {
  full_name = o.full_name;
  email = o.email;
  contact_no = o.contact_no;
  shipping_address = o.shipping_address;
  additional_notes = o.additional_notes;
  total_price = o.total_price;
}

unfoldable pub update_details : Env → OrderRow → Action (Unit {0})
update_details env o = statement env λ k db.
    affected (any (is_order o.tenant_id o.id) db.orders) (price_fits o.total_price) tt
      (record db { orders = update_where (is_order o.tenant_id o.id) (with_details o) db.orders })
      db

-- order_items and payments: ON DELETE CASCADE
unfoldable pub delete : Env → Uuid → Uuid → Action (Unit {0})
delete env tenant id = statement env λ k db.
    affected (any (is_order tenant id) db.orders) true tt
      (record db {
        orders = delete_where (is_order tenant id) db.orders;
        order_items = delete_where (λ i. i.order_id == id) db.order_items;
        payments = delete_where (λ p. p.order_id == id) db.payments;
      })
      db

-- ---- queries ----

abbrev pub items_of : Uuid → Db → List OrderItem
items_of order db =
    order_by (λ i j. leb i.id j.id) (select (λ i. i.order_id == order) db.order_items)

abbrev pub payments_of : Uuid → Db → List PaymentRow
payments_of order db =
    order_by (λ p q. leb q.created_at p.created_at) (select (λ p. p.order_id == order) db.payments)

abbrev pub unsigned_payment : PaymentRow → Payment
unsigned_payment p = record { row = p; proof_url = [] }

unfoldable pub load_children : Env → OrderRow → Action Order
load_children env o = do
  items ← statement env (λ k db. (ok (items_of o.id db), db))
  payments ← statement env (λ k db. (ok (map unsigned_payment (payments_of o.id db)), db))
  pure (record { row = o; items = items; payments = payments })

unfoldable pub get : Env → Uuid → Uuid → Action Order
unfolding load_children
get env tenant id = do
  found ← statement env (λ k db. (ok (find (is_order tenant id) db.orders), db))
  o ← require found not_found
  load_children env o

unfoldable pub get_by_id : Env → Uuid → Action Order
unfolding load_children
get_by_id env id = do
  found ← statement env (λ k db. (ok (find (λ o. o.id == id) db.orders), db))
  o ← require found not_found
  load_children env o

-- status = ANY($2), if statuses are given
abbrev pub status_wanted : List Status → Status → Bool
status_wanted [] s = true
status_wanted (w ∷ ws) s = any (λ v. status_eq v s) (w ∷ ws)

abbrev pub order_matches : Env → Uuid → List Status → Text → OrderRow → Bool
order_matches env tenant statuses search o =
    o.tenant_id == tenant
    && status_wanted statuses o.status
    && (is_empty search
        || env.ilike o.full_name search
        || env.ilike o.email search
        || env.ilike o.contact_no search)

abbrev pub order_newer : OrderRow → OrderRow → Bool
order_newer o p = leb p.created_at o.created_at

abbrev pub matching_orders : Env → Uuid → List Status → Text → Db → List OrderRow
matching_orders env tenant statuses search db =
    order_by order_newer (select (order_matches env tenant statuses search) db.orders)

unfoldable pub list : Env → Uuid → List Status → Text → ℤ → ℤ → Action (List OrderRow × ℕ)
list env tenant statuses search limit offset = do
  total ←
      statement env
        λ k db. (ok (length (select (order_matches env tenant statuses search) db.orders)), db)
  rows ←
      statement env
        λ k db. (limit_offset limit offset (matching_orders env tenant statuses search db), db)
  pure (rows, total)

-- ---- expiry ----

-- status='pending' AND expired_date < now()
abbrev pub is_stale : Time → OrderRow → Bool
is_stale now o = status_eq o.status pending && ltb o.expired_date now

unfoldable pub expire_stale : Env → Action ℕ
expire_stale env = statement env λ k db. (
  ok (length (select (is_stale (env.now k)) db.orders)),
  record db { orders = update_where (is_stale (env.now k)) (with_status expired) db.orders },
)

-- ---- payments ----

payment_fits : Db → PaymentRow → Bool
payment_fits db p =
    not (any (λ x. x.id == p.id) db.payments)
    && any (λ o. o.id == p.order_id) db.orders
    && numeric_fits p.amount

unfoldable pub add_payment : Env → Uuid → Text → ℤ → Action Payment
unfolding payment_fits
add_payment env order proof_key amount = statement env λ k db.
    let p : PaymentRow = record {
      id = env.uuid k;
      order_id = order;
      proof_key = proof_key;
      amount = amount;
      status = submitted;
      created_at = env.now k;
    } in
    inserted (payment_fits db p) (unsigned_payment p)
      (record db { payments = db.payments ++ p ∷ [] }) db

-- FROM orders o WHERE p.id=$1 AND p.order_id=o.id AND o.tenant_id=$2
abbrev pub is_payment : Db → Uuid → Uuid → PaymentRow → Bool
is_payment db tenant id p = p.id == id && any (is_order tenant p.order_id) db.orders

abbrev pub with_payment_status : PaymentStatus → PaymentRow → PaymentRow
with_payment_status status p = record p { status = status }

unfoldable pub set_payment_status : Env → Uuid → Uuid → PaymentStatus → Action (Unit {0})
set_payment_status env tenant id status = statement env λ k db.
    affected (any (is_payment db tenant id) db.payments) true tt
      (record db {
        payments = update_where (is_payment db tenant id) (with_payment_status status) db.payments;
      })
      db

-- `itoa`, for the placeholders of a query
unfoldable pub itoa : ℕ → Text
itoa n = if ltb n 10 then (b'0' + n) ∷ [] else (b'0' + n / 10) ∷ (b'0' + n % 10) ∷ []
