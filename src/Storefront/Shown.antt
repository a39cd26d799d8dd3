-- ===== src/Storefront/Shown.antt =====
-- What a visitor of a store is shown.
use agentic_mudahurus.Shared.{
  suc, IsRow, All-IsRow, All-both, All-weaken_select, ◌≤◌, ◌≡◌, refl, sym, subst, ◌∙◌, ap, Bool,
  true, some, List, [], ◌∷◌, map, arith, All, All-take, All-order_by, All-select, length,
  length-take, take, select, order_by, find, Text,
}
use agentic_mudahurus.Schema.{Uuid, Tenant, ProductRow, Product, Db}
use agentic_mudahurus.World.{Env, World, ok, pure, sign_url, statement, map_error, ◌>>=◌}
use agentic_mudahurus.World.Inversion.{chain-ok, query-ok}
use agentic_mudahurus.World.Preserves.{Preserves, preserve_rules, Preserves-statement}
use agentic_mudahurus.Auth.Store.{tenant_by_username, tenant_by_query, has_username}
use agentic_mudahurus.Catalog.Repo.{scan_product, product_newer}
use agentic_mudahurus.Storefront.{
  StoreProduct, Landing, resolve_tenant, store_product, sign_image, scan_store_product,
  scan_store_products, on_sale, store_name, landing_rows, landing,
}

-- A product as it is shown, but for the link to its image.
abbrev pub unsigned : StoreProduct → StoreProduct
unsigned s = record s { image_url = [] }

pub scanned-product :
    (env : Env) (p : Product) (w : World) (s : StoreProduct)
    → (scan_store_product env p w).0 ≡ ok s
    → unsigned s ≡ store_product p []
unfolding scan_store_product sign_image pure sign_url ◌>>=◌
scanned-product env p w s h = ground arith

pub scanned-products :
    (env : Env) (ps : List Product) (w : World) (ss : List StoreProduct)
    → (scan_store_products env ps w).0 ≡ ok ss
    → map unsigned ss ≡ map (λ p. store_product p []) ps
unfolding scan_store_products pure
scanned-products env [] w ss h = cc
scanned-products env (p ∷ ps) w ss h =
    let (s, one, e1) = chain-ok (scan_store_product env p) _ w ss refl h in
    let w1 = (scan_store_product env p w).1 in
    let (rest, others, e2) = chain-ok (scan_store_products env ps) _ w1 ss e1 h in
    let here = scanned-product env p w s one in
    let there = scanned-products env ps w1 rest others in
    let same : s ∷ rest ≡ ss = cc (ap (λ r. r.0) e2, h) in rw (← same) (cc (here, there))

pub resolved :
    (env : Env) (username : Text) (w : World) (t : Tenant)
    → (resolve_tenant env username w).0 ≡ ok t
    → find (has_username env username) w.db.tenants ≡ some t
unfolding resolve_tenant tenant_by_username tenant_by_query map_error ◌>>=◌
resolved env username w t h = ground arith

pub Preserves-resolve_tenant :
    {P : Db → Type 0} (env : Env) (username : Text) → Preserves P (resolve_tenant env username)
unfolding resolve_tenant tenant_by_username tenant_by_query
Preserves-resolve_tenant env username = search (
  preserve_rules,
  Preserves-statement env (λ k db. (ok (find (has_username env username) db.tenants), db))
      (λ k db h. h),
)

-- What is shown is a product of the table, of that seller and active, as it stands there.
abbrev pub IsShown : Uuid → Db → StoreProduct → Type 0
IsShown t db s =
    (p : ProductRow) × (on_sale t p ≡ true)
    × IsRow db.products p
    × (unsigned s ≡ store_product (scan_product db p) [])

pub IsShown-rows :
    (t : Uuid) (db : Db) (ps : List ProductRow) (ss : List StoreProduct)
    → All (λ p. (on_sale t p ≡ true) × IsRow db.products p) ps
    → map unsigned ss ≡ map (λ p. store_product p []) (map (scan_product db) ps)
    → All (IsShown t db) ss × (length ss ≡ length ps)
IsShown-rows t db [] [] h e = (tt, refl)
IsShown-rows t db [] (s ∷ ss) h e = absurd (cc e)
IsShown-rows t db (p ∷ ps) [] h e = absurd (cc e)
IsShown-rows t db (p ∷ ps) (s ∷ ss) ((sale, row), h) e =
    let here : unsigned s ≡ store_product (scan_product db p) [] = cc e in
    let later : map unsigned ss ≡ map (λ p. store_product p []) (map (scan_product db) ps) = cc e in
    let (rest, count) = IsShown-rows t db ps ss h later in
    (((p, sale, row, here), rest), ap (λ n. suc n) count)

pub on_sale_rows :
    (t : Uuid) (wanted : ProductRow → Bool) (newer : ProductRow → ProductRow → Bool) (db : Db)
    → ((p : ProductRow) → wanted p ≡ true → on_sale t p ≡ true)
    → All
        (λ p. (on_sale t p ≡ true) × IsRow db.products p)
        (order_by newer (select wanted db.products))
on_sale_rows t wanted newer db sale = All-order_by _ newer (select wanted db.products) (
    All-both (λ p. on_sale t p ≡ true) (IsRow db.products) (select wanted db.products)
      (All-select _ wanted db.products sale)
      (All-weaken_select (IsRow db.products) wanted db.products (All-IsRow db.products)))

-- The landing page of a store. If it is served, the store is that of the seller with the user name asked for,
-- but for case; every product on it is one of that seller's active products; and there are at most 200.
pub landing-IsShown :
    (env : Env) (username : Text) (w : World) (l : Landing)
    → (landing env username w).0 ≡ ok l
    → (t : Tenant) × (find (has_username env username) w.db.tenants ≡ some t)
      × (l.username ≡ t.username)
      × All (IsShown t.id w.db) l.products
      × (length l.products ≤ 200)
unfolding landing pure
landing-IsShown env username w l h =
    let (t, found, e1) = chain-ok (resolve_tenant env username) _ w l refl h in
    let w1 = (resolve_tenant env username w).1 in
    let same : w1.db ≡ w.db =
      (Preserves-resolve_tenant {P = λ db. db ≡ w.db} env username).holds w refl in
    let (rows, read, e2) =
      chain-ok (statement env (λ k db. (ok (landing_rows t.id db), db))) _ w1 l e1 h in
    let e_rows : landing_rows t.id w1.db ≡ rows =
      cc (query-ok env (λ db. ok (landing_rows t.id db)) w1 rows read) in
    let w2 = (statement env (λ k db. (ok (landing_rows t.id db), db)) w1).1 in
    let (products, scanned, e3) = chain-ok (scan_store_products env rows) _ w2 l e2 h in
    let page : record { username = t.username; store_name = store_name t; products = products }
        ≡ l =
      cc (ap (λ s. s.0) e3, h) in
    let newest = order_by product_newer (select (on_sale t.id) w1.db.products) in
    let (all, count) =
      IsShown-rows t.id w1.db (take 200 newest) products
        (All-take _ 200 newest (on_sale_rows t.id (on_sale t.id) product_newer w1.db (λ p e. e)))
        (scanned-products env rows w2 products scanned
          ∙ ap (λ ps. map (λ p. store_product p []) ps) (sym e_rows)) in
    (
      t,
      resolved env username w t found,
      ap (λ (x : Landing). x.username) (sym page),
      subst (λ db. All (IsShown t.id db) l.products) same
          (subst (λ (x : Landing). All (IsShown t.id w1.db) x.products) page all),
      subst (λ (x : Landing). length x.products ≤ 200) page
          (omega (arith, count, length-take 200 newest)),
    )
