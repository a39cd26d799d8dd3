-- ===== src/Catalog/Repo.antt =====
-- api/internal/catalog/repo.go: each query as its effect on the tables, with the constraints of
-- migrations/000002_catalog.up.sql. Rows of one creation time are listed in table order.
pub mod Isolation
pub mod Frame
pub mod Keys
use agentic_mudahurus.Shared.{
  ℕ, Bool, true, false, Option, none, some, List, [], ◌∷◌, ◌++◌, map, not, ◌&&◌, ◌||◌,
  if◌then◌else◌, ltb, leb, ◌==◌, length, any, select, find, update_where, delete_where, order_by,
  Text, codes, text_eq, is_empty,
}
use agentic_mudahurus.Shared.Int.{ℤ}
use agentic_mudahurus.Schema.{Uuid, Category, ProductRow, Product, OrderItem, CouponRow, Db}
use agentic_mudahurus.World.{
  Error, not_found, failure, Result, ok, err, World, Env, Action, statement, require, pure, ◌>>=◌,
  ◌>>◌, limit_offset, affected, inserted, price_fits, refers,
}

abbrev pub has_tenant : Db → Uuid → Bool
has_tenant db t = any (λ x. x.id == t) db.tenants

abbrev pub has_category : Db → Uuid → Bool
has_category db c = any (λ x. x.id == c) db.categories

-- WHERE id=$1 AND tenant_id=$2
abbrev pub is_category : Uuid → Uuid → Category → Bool
is_category tenant id c = c.id == id && c.tenant_id == tenant

abbrev pub is_product : Uuid → Uuid → ProductRow → Bool
is_product tenant id p = p.id == id && p.tenant_id == tenant

-- ---- Categories ----

-- UNIQUE (tenant_id, name)
abbrev same_name : Category → Category → Bool
same_name c d = d.tenant_id == c.tenant_id && text_eq d.name c.name

category_fits : Db → Category → Bool
category_fits db c =
    not (has_category db c.id) && has_tenant db c.tenant_id && not (any (same_name c) db.categories)

unfoldable pub create_category : Env → Uuid → Text → Text → Action Category
unfolding category_fits
create_category env tenant name desc = statement env λ k db.
    let c : Category = record {
      id = env.uuid k;
      tenant_id = tenant;
      name = name;
      description = desc;
      created_at = env.now k;
    } in
    inserted (category_fits db c) c (record db { categories = db.categories ++ c ∷ [] }) db

-- The renamed row must not meet another row's name.
abbrev rename_fits : Db → Uuid → Uuid → Text → Bool
rename_fits db tenant id name =
    not (any (λ d. d.tenant_id == tenant && text_eq d.name name && not (d.id == id)) db.categories)

unfoldable pub update_category : Env → Uuid → Uuid → Text → Text → Action (Unit {0})
update_category env tenant id name desc = statement env λ k db.
    affected (any (is_category tenant id) db.categories) (rename_fits db tenant id name) tt
      (record db {
        categories =
            update_where (is_category tenant id) (λ c. record c { name = name; description = desc })
              db.categories;
      })
      db

-- products.category_id: ON DELETE SET NULL
abbrev pub clear_category : Uuid → Option Uuid → Option Uuid
clear_category id none = none
clear_category id (some c) = if c == id then none else some c

abbrev pub uncategorise : Uuid → ProductRow → ProductRow
uncategorise id p = record p { category_id = clear_category id p.category_id }

unfoldable pub delete_category : Env → Uuid → Uuid → Action (Unit {0})
delete_category env tenant id = statement env λ k db.
    affected (any (is_category tenant id) db.categories) true tt
      (record db {
        categories = delete_where (is_category tenant id) db.categories;
        products = map (uncategorise id) db.products;
      })
      db

-- ORDER BY name, by PostgreSQL's collation
unfoldable pub list_categories : Env → (Text → Text → Bool) → Uuid → Action (List Category)
list_categories env collates tenant = statement env λ k db. (
  ok (order_by (λ c d. collates c.name d.name) (select (λ c. c.tenant_id == tenant) db.categories)),
  db,
)

unfoldable pub get_category : Env → Uuid → Uuid → Action Category
get_category env tenant id = do
  found ← statement env (λ k db. (ok (find (is_category tenant id) db.categories), db))
  require found not_found

-- ---- Products ----

abbrev category_name_of : List Category → Option Uuid → Text
category_name_of categories none = []
category_name_of categories (some id) = elim (find (λ c. c.id == id) categories) [
  | none ↦ []
  | some c ↦ c.name
]

-- LEFT JOIN categories, and `scanProduct`
unfoldable pub scan_product : Db → ProductRow → Product
scan_product db p = record {
  row = p;
  category_name = category_name_of db.categories p.category_id;
  image_url = [];
}

-- CHECK (status IN ('active','inactive'))
abbrev pub is_product_status : Text → Bool
is_product_status s = text_eq s (codes "active") || text_eq s (codes "inactive")

-- UNIQUE (tenant_id, sku), against the rows of other products
abbrev takes_sku : ProductRow → ProductRow → Bool
takes_sku p q = q.tenant_id == p.tenant_id && text_eq q.sku p.sku && not (q.id == p.id)

unfoldable pub product_fits : Db → ProductRow → Bool
product_fits db p =
    refers (has_category db) p.category_id
    && not (any (takes_sku p) db.products)
    && price_fits p.unit_price
    && is_product_status p.status

unfoldable pub create_product : Env → ProductRow → Action ProductRow
unfolding product_fits
create_product env p = statement env λ k db.
    let q : ProductRow = record p { id = env.uuid k; created_at = env.now k } in
    inserted
      (not (any (λ x. x.id == q.id) db.products) && has_tenant db q.tenant_id && product_fits db q)
      q (record db { products = db.products ++ q ∷ [] }) db

-- SET category_id=$3, sku=$4, …: the image and the creation time stay
abbrev pub with_columns : ProductRow → ProductRow → ProductRow
with_columns p q = record q {
  category_id = p.category_id;
  sku = p.sku;
  product_name = p.product_name;
  description = p.description;
  unit_price = p.unit_price;
  url_slug = p.url_slug;
  status = p.status;
}

unfoldable pub update_product : Env → ProductRow → Action (Unit {0})
unfolding product_fits
update_product env p = statement env λ k db.
    affected (any (is_product p.tenant_id p.id) db.products) (product_fits db p) tt
      (record db {
        products = update_where (is_product p.tenant_id p.id) (with_columns p) db.products;
      })
      db

image_of : Option ProductRow → Text
image_of none = []
image_of (some p) = p.image_key

-- the old key comes from the row as it was before the statement
unfoldable pub set_product_image : Env → Uuid → Uuid → Text → Action Text
unfolding image_of
set_product_image env tenant id key = statement env λ k db.
    affected (any (is_product tenant id) db.products) true
      (image_of (find (is_product tenant id) db.products))
      (record db {
        products =
            update_where (is_product tenant id) (λ p. record p { image_key = key }) db.products;
      })
      db

-- order_items.product_id and coupons.product_id: ON DELETE SET NULL
abbrev pub clear_product : Uuid → Option Uuid → Option Uuid
clear_product id none = none
clear_product id (some p) = if p == id then none else some p

abbrev pub unlink_item : Uuid → OrderItem → OrderItem
unlink_item id i = record i { product_id = clear_product id i.product_id }

abbrev pub unlink_coupon : Uuid → CouponRow → CouponRow
unlink_coupon id c = record c { product_id = clear_product id c.product_id }

unfoldable pub delete_product : Env → Uuid → Uuid → Action (Unit {0})
delete_product env tenant id = statement env λ k db.
    affected (any (is_product tenant id) db.products) true tt
      (record db {
        products = delete_where (is_product tenant id) db.products;
        order_items = map (unlink_item id) db.order_items;
        coupons = map (unlink_coupon id) db.coupons;
      })
      db

joined : Db → Option ProductRow → Option Product
joined db none = none
joined db (some p) = some (scan_product db p)

unfoldable pub get_product : Env → Uuid → Uuid → Action Product
unfolding joined
get_product env tenant id = do
  found ← statement env (λ k db. (ok (joined db (find (is_product tenant id) db.products)), db))
  require found not_found

-- WHERE tenant_id=$1 AND lower(sku)=lower($2)
abbrev pub has_sku : Env → Uuid → Text → ProductRow → Bool
has_sku env tenant sku p = p.tenant_id == tenant && text_eq (env.lower p.sku) (env.lower sku)

unfoldable pub get_product_by_sku : Env → Uuid → Text → Action Product
unfolding joined
get_product_by_sku env tenant sku = do
  found ← statement env (λ k db. (ok (joined db (find (has_sku env tenant sku) db.products)), db))
  require found not_found

-- the WHERE clause that `ListProducts` builds
abbrev pub product_matches : Env → Uuid → Text → ProductRow → Bool
product_matches env tenant search p =
    p.tenant_id == tenant
    && (is_empty search
        || env.ilike p.product_name search
        || env.ilike p.sku search
        || env.ilike p.description search)

abbrev pub product_newer : ProductRow → ProductRow → Bool
product_newer p q = leb q.created_at p.created_at

unfoldable pub list_products : Env → Uuid → Text → ℤ → ℤ → Action (List Product × ℕ)
list_products env tenant search limit offset = do
  total ←
      statement env
        (λ k db. (ok (length (select (product_matches env tenant search) db.products)), db))
  rows ← statement env λ k db. (
    limit_offset limit offset (
        map (scan_product db)
          (order_by product_newer (select (product_matches env tenant search) db.products))),
    db,
  )
  pure (rows, total)
