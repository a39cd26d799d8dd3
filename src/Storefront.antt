-- ===== src/Storefront.antt =====
-- api/internal/storefront/storefront.go: the public store of a seller. PostgreSQL's text search is two
-- arguments: whether a product matches the words, and its rank among those that do.
pub mod Shown
pub mod Search
pub mod Single
pub mod Checkout
use agentic_mudahurus.Shared.{
  ℕ, Bool, true, Option, none, some, List, [], ◌∷◌, ◌++◌, map, ◌&&◌, ◌||◌, if◌then◌else◌, ltb, leb,
  ◌==◌, select, find, order_by, take, Text, codes, text_eq, is_empty,
}
use agentic_mudahurus.Shared.Int.{ℤ, pos, leb_ℤ, ltb_ℤ}
use agentic_mudahurus.Shared.Decimal.{atoi_value}
use agentic_mudahurus.Schema.{Uuid, Status, Tenant, ProductRow, Product, Order, Db}
use agentic_mudahurus.World.{
  Env, Action, ok, pure, statement, require, map_error, limit_offset, sign_url, ◌>>=◌,
}
use agentic_mudahurus.Httpx.Errors.{bad_request, missing}
use agentic_mudahurus.Tenancy.Identity.{Identity}
use agentic_mudahurus.Auth.Store.{tenant_by_username}
use agentic_mudahurus.Catalog.Repo.{scan_product, has_sku, is_product, product_newer}
use agentic_mudahurus.Orders.Service.{AdminInput, guest_checkout}

pub record StoreProduct : Type 0 where
  pub id : Uuid
  pub sku : Text
  pub product_name : Text
  pub description : Text
  pub unit_price : ℤ
  pub url_slug : Text
  pub image_url : Text
  pub category : Text

unfoldable pub resolve_tenant : Env → Text → Action Tenant
resolve_tenant env username =
    map_error (λ e. missing (codes "store not found")) (tenant_by_username env username)

abbrev or_blank : Option Text → Text
or_blank none = []
or_blank (some url) = url

unfoldable pub sign_image : Env → Text → Action Text
sign_image env key =
    if is_empty key then pure [] else do url ← sign_url env key 3600; pure (or_blank url)

abbrev pub store_product : Product → Text → StoreProduct
store_product p url = record {
  id = p.id;
  sku = p.sku;
  product_name = p.product_name;
  description = p.description;
  unit_price = p.unit_price;
  url_slug = p.url_slug;
  image_url = url;
  category = p.category_name;
}

unfoldable pub scan_store_product : Env → Product → Action StoreProduct
unfolding sign_image
scan_store_product env p = do url ← sign_image env p.image_key; pure (store_product p url)

unfoldable pub scan_store_products : Env → List Product → Action (List StoreProduct)
unfolding scan_store_product
scan_store_products env [] = pure []
scan_store_products env (p ∷ ps) = do
  q ← scan_store_product env p
  qs ← scan_store_products env ps
  pure (q ∷ qs)

-- `storeName`
abbrev pub store_name : Tenant → Text
store_name t = if is_empty t.store_name then t.username else t.store_name

pub record Landing : Type 0 where
  pub username : Text
  pub store_name : Text
  pub products : List StoreProduct

-- p.tenant_id=$1 AND p.status='active'
abbrev pub on_sale : Uuid → ProductRow → Bool
on_sale tenant p = p.tenant_id == tenant && text_eq p.status (codes "active")

abbrev pub landing_rows : Uuid → Db → List Product
landing_rows tenant db =
    map (scan_product db) (take 200 (order_by product_newer (select (on_sale tenant) db.products)))

unfoldable pub landing : Env → Text → Action Landing
unfolding resolve_tenant scan_store_products
landing env username = do
  t ← resolve_tenant env username
  rows ← statement env (λ k db. (ok (landing_rows t.id db), db))
  products ← scan_store_products env rows
  pure (record { username = t.username; store_name = store_name t; products = products })

-- `if limit <= 0 || limit > 100 { limit = 20 }`
abbrev pub search_limit : ℤ → ℤ
search_limit limit = if leb_ℤ limit (pos 0) || ltb_ℤ (pos 100) limit then pos 20 else limit

module _ (env : Env) (text_match : Text → ProductRow → Bool) (rank : Text → ProductRow → ℕ) where
  abbrev pub found_by : Uuid → Text → ProductRow → Bool
  found_by tenant words p =
      on_sale tenant p && (is_empty words || text_match words p || env.ilike p.product_name words)

  -- ORDER BY ts_rank(…) DESC, p.created_at DESC
  abbrev pub ranked_before : Text → ProductRow → ProductRow → Bool
  ranked_before words p q =
      ltb (rank words q) (rank words p) || rank words p == rank words q && product_newer p q

  abbrev pub ranked_rows : Uuid → Text → Db → List Product
  ranked_rows tenant words db =
      map (scan_product db)
        (order_by (ranked_before words) (select (found_by tenant words) db.products))

  -- The query parameters `q`, `limit` and `offset`; one that is absent is empty.
  unfoldable pub search_store : Text → (words limit offset : Text) → Action (List StoreProduct)
  unfolding resolve_tenant scan_store_products
  search_store username words limit offset = do
    t ← resolve_tenant env username
    rows ← statement env λ k db. (
      limit_offset (search_limit (atoi_value limit)) (atoi_value offset)
          (ranked_rows t.id words db),
      db,
    )
    scan_store_products env rows

joined : Db → Option ProductRow → Option Product
joined db none = none
joined db (some p) = some (scan_product db p)

abbrev pub active_product : Uuid → Uuid → ProductRow → Bool
active_product tenant id p = is_product tenant id p && text_eq p.status (codes "active")

abbrev pub active_sku : Env → Uuid → Text → ProductRow → Bool
active_sku env tenant sku p = has_sku env tenant sku p && text_eq p.status (codes "active")

-- The one row of a query on products, or 404.
unfoldable pub one_product : Env → (ProductRow → Bool) → Action StoreProduct
unfolding joined scan_store_product
one_product env wanted = do
  found ← statement env (λ k db. (ok (joined db (find wanted db.products)), db))
  p ← require found (missing (codes "product not found"))
  scan_store_product env p

unfoldable pub product_detail : Env → Text → Text → Action StoreProduct
unfolding resolve_tenant
product_detail env username param = do
  t ← resolve_tenant env username
  id ← require (env.parse_uuid param) (bad_request (codes "invalid product id"))
  one_product env (active_product t.id id)

unfoldable pub product_by_sku : Env → Text → Text → Action StoreProduct
unfolding resolve_tenant
product_by_sku env username sku = do
  t ← resolve_tenant env username
  one_product env (active_sku env t.id sku)

pub record Placed : Type 0 where
  pub order_id : Uuid
  pub status : Status
  pub total_price : ℤ
  pub invoice_url : Text

abbrev pub placed : Env → Order → Placed
placed env o = record {
  order_id = o.id;
  status = o.status;
  total_price = o.total_price;
  invoice_url = codes "/invoice/" ++ env.uuid_string o.id;
}

-- The tenant of the order is the one that the path names.
unfoldable pub checkout : Env → Text → AdminInput → Action Placed
unfolding resolve_tenant
checkout env username input = do
  t ← resolve_tenant env username
  o ← guest_checkout env t.id input
  pure (placed env o)
