-- ===== src/Requests/Isolation.antt =====
-- Tenant isolation over any sequence of requests.
use agentic_mudahurus.Shared.{
  ◌≡◌, ◌≢◌, refl, ◌∙◌, ap, none, List, [], ◌∷◌, map, All, select, ◌==◌, arith,
}
use agentic_mudahurus.Schema.{Uuid, OrderRow, Customer, Db}
use agentic_mudahurus.World.{World, Env, Action}
use agentic_mudahurus.World.Preserves.{Preserves}
use agentic_mudahurus.Tenancy.{
  SameFor, SameFor-refl, owned_categories, owned_products, owned_orders, select-map,
}
use agentic_mudahurus.Customers.{forget_customer}
use agentic_mudahurus.Requests.Frames.{delete_customer-keeps}
use agentic_mudahurus.Requests.{Outside, Call, delete_customer, context_of, perform, run}
use agentic_mudahurus.Requests.Owned.{perform-SameFor}

-- The links of orders to customers are left out: the customer of a seller may be deleted while an order
-- of another seller refers to it.
abbrev pub without_customer : OrderRow → OrderRow
without_customer o = record o { customer_id = none }

-- The tenant's account, categories, products and orders are what they were, but for those links.
pub record IsUntouched (u : Uuid) (before db : Db) : Type 0 where
  pub account : select (λ t. t.id == u) db.tenants ≡ select (λ t. t.id == u) before.tenants
  pub categories : owned_categories u db ≡ owned_categories u before
  pub products : owned_products u db ≡ owned_products u before
  pub orders :
      map without_customer (owned_orders u db) ≡ map without_customer (owned_orders u before)

SameFor-IsUntouched :
    (u : Uuid) (a b c : Db) → IsUntouched u a b → SameFor u b c → IsUntouched u a c
SameFor-IsUntouched u a b c h k = record {
  account = k.account ∙ h.account;
  categories = k.categories ∙ h.categories;
  products = k.products ∙ h.products;
  orders = ap (map without_customer) k.orders ∙ h.orders;
}

IsUntouched-trans :
    (u : Uuid) (a b c : Db) → IsUntouched u a b → IsUntouched u b c → IsUntouched u a c
IsUntouched-trans u a b c h k = record {
  account = k.account ∙ h.account;
  categories = k.categories ∙ h.categories;
  products = k.products ∙ h.products;
  orders = k.orders ∙ h.orders;
}

IsUntouched-refl : (u : Uuid) (db : Db) → IsUntouched u db db
IsUntouched-refl u db = record { account = refl; categories = refl; products = refl; orders = refl }

widen :
    {A : Type 0} (u : Uuid) (before : Db) (m : Action A)
    → ((b : Db) → Preserves (SameFor u b) m)
    → Preserves (IsUntouched u before) m
widen u before m kept = record {
  holds = λ w h.
      SameFor-IsUntouched u before w.db (m w).1.db h ((kept w.db).holds w (SameFor-refl u w.db));
}

forgotten-IsUntouched :
    (u : Uuid) (before : Db) (id : Uuid) (cs : List Customer) (db : Db)
    → IsUntouched u before db
    → IsUntouched u before
        (record db { customers = cs; orders = map (forget_customer id) db.orders })
forgotten-IsUntouched u before id cs db h = record {
  account = h.account;
  categories = h.categories;
  products = h.products;
  orders =
      select-map without_customer (forget_customer id) (λ o. o.tenant_id == u) db.orders
        (λ o. (ground arith, ground arith))
      ∙ h.orders;
}

perform-IsUntouched :
    {t u : Uuid} (ne : u ≢ t) (before : Db) (env : Env) (out : Outside) (call : Call)
    → Preserves (IsUntouched u before) (perform env out t call)
unfolding perform
perform-IsUntouched {t} {u} ne before env out (delete_customer param) =
    delete_customer-keeps env (forgotten-IsUntouched u before) (context_of t) param
perform-IsUntouched {t} {u} ne before env out call =
    widen u before (perform env out t call) (λ b. perform-SameFor ne {before = b} env out call refl)

-- Tenant isolation. Whatever requests of `Call` the sellers other than `u` make (all that write tables for
-- a seller: products and their images, categories, orders, checkouts in their stores, payments, the
-- profile and the password, customers, coupons, charges and the copilot's actions), in whatever
-- order, and whichever of their statements the database fails, the account, the categories, the
-- products (but for their links to categories) and the orders (but for their links to customers) of
-- `u` are afterwards what they were.
pub tenant_isolation :
    (env : Env) (out : Outside) (u : Uuid) (calls : List (Uuid × Call)) (w : World)
    → All (λ c. u ≢ c.0) calls
    → IsUntouched u w.db (run env out calls w).db
unfolding run
tenant_isolation env out u [] w h = IsUntouched-refl u w.db
tenant_isolation env out u ((t, call) ∷ calls) w (ne, h) =
    IsUntouched-trans u w.db (perform env out t call w).1.db _
      ((perform-IsUntouched ne w.db env out call).holds w (IsUntouched-refl u w.db))
      (tenant_isolation env out u calls (perform env out t call w).1 h)
