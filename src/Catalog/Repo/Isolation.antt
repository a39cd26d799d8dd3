-- ===== src/Catalog/Repo/Isolation.antt =====
-- The statements of one tenant leave what another owns alone.
use agentic_mudahurus.Shared.{
  ◌≡◌, ◌≢◌, refl, Bool, map, ◌==◌, select-update_where, select-delete_where, delete_where, Text, ap,
}
use agentic_mudahurus.Shared.Int.{ℤ}
use agentic_mudahurus.Schema.{Uuid, ProductRow, Db}
use agentic_mudahurus.World.{Env}
use agentic_mudahurus.World.Preserves.{
  Preserves, preserve_rules, Preserves-statement, affected_keeps, inserted_keeps,
}
use agentic_mudahurus.Tenancy.{
  SameFor, SameFor-categories, SameFor-products, without_category, select-insert, select-map,
  foreign_row, foreign_match,
}
use agentic_mudahurus.Catalog.Repo.{
  is_category, is_product, uncategorise, create_category, update_category, delete_category,
  list_categories, create_product, update_product, set_product_image, delete_product, get_product,
  get_product_by_sku, list_products,
}

module _ {t u : Uuid} (ne : u ≢ t) {before : Db} where
  pub create_category-SameFor :
      (env : Env) (name desc : Text)
      → Preserves (SameFor u before) (create_category env t name desc)
  unfolding create_category
  create_category-SameFor env name desc = Preserves-statement env _ λ k db h.
      inserted_keeps (SameFor u before) _ _ _ db h
        λ fits. SameFor-categories h _ (select-insert _ db.categories _ (foreign_row t u ne))

  pub update_category-SameFor :
      (env : Env) (id : Uuid) (name desc : Text)
      → Preserves (SameFor u before) (update_category env t id name desc)
  unfolding update_category
  update_category-SameFor env id name desc = Preserves-statement env _ λ k db h.
      affected_keeps (SameFor u before) _ _ _ _ db h λ found. SameFor-categories h _ (
        select-update_where _ (is_category t id) _ db.categories
          λ c e. let f = foreign_match t u id c.id c.tenant_id ne e in (f, f))

  pub delete_category-SameFor :
      (env : Env) (id : Uuid) → Preserves (SameFor u before) (delete_category env t id)
  unfolding delete_category
  delete_category-SameFor env id = Preserves-statement env _ λ k db h.
      affected_keeps (SameFor u before) _ _ _ _ db h λ found.
        SameFor-products
          (SameFor-categories h _ (
            select-delete_where _ (is_category t id) db.categories
              λ c e. foreign_match t u id c.id c.tenant_id ne e))
          _
          (select-map without_category (uncategorise id) (λ p. p.tenant_id == u) db.products
            λ p. (refl, refl))

  pub create_product-SameFor :
      (env : Env) (p : ProductRow)
      → p.tenant_id ≡ t
      → Preserves (SameFor u before) (create_product env p)
  unfolding create_product
  create_product-SameFor env p own = Preserves-statement env _ λ k db h.
      inserted_keeps (SameFor u before) _ _ _ db h λ fits.
        SameFor-products h _
          (ap (map without_category) (select-insert _ db.products _ (rw own (foreign_row t u ne))))

  pub update_product-SameFor :
      (env : Env) (p : ProductRow)
      → p.tenant_id ≡ t
      → Preserves (SameFor u before) (update_product env p)
  unfolding update_product
  update_product-SameFor env p own = Preserves-statement env _ λ k db h.
      affected_keeps (SameFor u before) _ _ _ _ db h λ found. SameFor-products h _ (
        ap (map without_category) (
          select-update_where _ (is_product p.tenant_id p.id) _ db.products
            λ q e. let f = foreign_match t u p.id q.id q.tenant_id ne (rw own at e) in (f, f)))

  pub set_product_image-SameFor :
      (env : Env) (id : Uuid) (key : Text)
      → Preserves (SameFor u before) (set_product_image env t id key)
  unfolding set_product_image
  set_product_image-SameFor env id key = Preserves-statement env _ λ k db h.
      affected_keeps (SameFor u before) _ _ _ _ db h λ found. SameFor-products h _ (
        ap (map without_category) (
          select-update_where _ (is_product t id) _ db.products
            λ q e. let f = foreign_match t u id q.id q.tenant_id ne e in (f, f)))

  pub delete_product-SameFor :
      (env : Env) (id : Uuid) → Preserves (SameFor u before) (delete_product env t id)
  unfolding delete_product
  delete_product-SameFor env id = Preserves-statement env _ λ k db h.
      affected_keeps (SameFor u before) _ _ _ _ db h λ found.
        let step = SameFor-products h (delete_where (is_product t id) db.products) (
          ap (map without_category) (
            select-delete_where _ (is_product t id) db.products
              λ q e. foreign_match t u id q.id q.tenant_id ne e)) in
        record {
          account = step.account;
          categories = step.categories;
          products = step.products;
          orders = step.orders;
        }

-- The queries write nothing.
module _ {P : Db → Type 0} (env : Env) (t : Uuid) where
  pub Preserves-list_categories :
      (collates : Text → Text → Bool) → Preserves P (list_categories env collates t)
  unfolding list_categories
  Preserves-list_categories collates = Preserves-statement env _ (λ k db h. h)

  pub Preserves-get_product : (id : Uuid) → Preserves P (get_product env t id)
  unfolding get_product
  Preserves-get_product id = search (preserve_rules, Preserves-statement)

  pub Preserves-get_product_by_sku : (sku : Text) → Preserves P (get_product_by_sku env t sku)
  unfolding get_product_by_sku
  Preserves-get_product_by_sku sku = search (preserve_rules, Preserves-statement)

  pub Preserves-list_products :
      (search_text : Text) (limit offset : ℤ)
      → Preserves P (list_products env t search_text limit offset)
  unfolding list_products
  Preserves-list_products search_text limit offset = search (preserve_rules, Preserves-statement)
