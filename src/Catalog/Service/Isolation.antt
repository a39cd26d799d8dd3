-- ===== src/Catalog/Service/Isolation.antt =====
-- The catalogue's operations for one tenant leave what another owns alone.
use agentic_mudahurus.Shared.{◌≢◌, refl, Option, List, [], ◌∷◌, Text}
use agentic_mudahurus.Shared.Int.{ℤ}
use agentic_mudahurus.Schema.{Uuid, Product, Db}
use agentic_mudahurus.World.{Env, Result, ok, err}
use agentic_mudahurus.World.Preserves.{Preserves, preserve_rules}
use agentic_mudahurus.Tenancy.{SameFor}
use agentic_mudahurus.Catalog.Repo.Isolation.{
  create_category-SameFor, update_category-SameFor, delete_category-SameFor, create_product-SameFor,
  update_product-SameFor, delete_product-SameFor, Preserves-get_product,
  Preserves-get_product_by_sku, Preserves-list_products,
}
use agentic_mudahurus.Catalog.Service.{
  ProductInput, refuse_taken, check_sku, create_product, update_product, delete_product,
  attach_image_url, get_product, get_product_by_sku, attach_all, list_products, create_category,
  update_category, delete_category, new_product, changed_product,
}

module _ {P : Db → Type 0} (env : Env) where
  Preserves-refuse_taken : (found : Result Product) → Preserves P (refuse_taken found)
  unfolding refuse_taken
  Preserves-refuse_taken (ok p) = search preserve_rules
  Preserves-refuse_taken (err e) = search preserve_rules

  pub Preserves-check_sku : (tenant : Uuid) (sku : Text) → Preserves P (check_sku env tenant sku)
  unfolding check_sku
  Preserves-check_sku tenant sku =
      search (preserve_rules, Preserves-refuse_taken, Preserves-get_product_by_sku)

  Preserves-attach_image_url : (p : Product) → Preserves P (attach_image_url env p)
  unfolding attach_image_url
  Preserves-attach_image_url p = search preserve_rules

  Preserves-attach_all : (ps : List Product) → Preserves P (attach_all env ps)
  unfolding attach_all
  Preserves-attach_all [] = search preserve_rules
  Preserves-attach_all (p ∷ ps) =
      let rest = Preserves-attach_all ps in search (preserve_rules, Preserves-attach_image_url)

module _ {P : Db → Type 0} (env : Env) (t : Uuid) where
  pub Preserves-service_get_product : (id : Uuid) → Preserves P (get_product env t id)
  unfolding get_product
  Preserves-service_get_product id =
      search (preserve_rules, Preserves-get_product, Preserves-attach_image_url)

  pub Preserves-service_get_product_by_sku :
      (sku : Text) → Preserves P (get_product_by_sku env t sku)
  unfolding get_product_by_sku
  Preserves-service_get_product_by_sku sku =
      search (preserve_rules, Preserves-get_product_by_sku, Preserves-attach_image_url)

  pub Preserves-service_list_products :
      (search_text : Text) (limit offset : ℤ)
      → Preserves P (list_products env t search_text limit offset)
  unfolding list_products
  Preserves-service_list_products search_text limit offset =
      search (preserve_rules, Preserves-list_products, Preserves-attach_all)

module _ {t u : Uuid} (ne : u ≢ t) {before : Db} (env : Env) where
  pub service_create_product-SameFor :
      (input : ProductInput) → Preserves (SameFor u before) (create_product env t input)
  unfolding create_product
  service_create_product-SameFor input =
      search
        (
          preserve_rules,
          Preserves-check_sku,
          λ (c : Option Uuid).
              create_product-SameFor ne {before = before} env (new_product env t c input) refl,
        )
        depth 8

  pub service_update_product-SameFor :
      (id : Uuid) (input : ProductInput)
      → Preserves (SameFor u before) (update_product env t id input)
  unfolding update_product
  service_update_product-SameFor id input =
      search
        (
          preserve_rules,
          Preserves-check_sku,
          Preserves-get_product,
          λ (x : Product) (c : Option Uuid).
              update_product-SameFor ne {before = before} env (changed_product t id x c input) refl,
        )
        depth 9

  pub service_delete_product-SameFor :
      (id : Uuid) → Preserves (SameFor u before) (delete_product env t id)
  unfolding delete_product
  service_delete_product-SameFor id = search (preserve_rules, delete_product-SameFor ne env id)

  pub service_create_category-SameFor :
      (name desc : Text) → Preserves (SameFor u before) (create_category env t name desc)
  unfolding create_category
  service_create_category-SameFor name desc =
      search (preserve_rules, create_category-SameFor ne env name desc)

  pub service_update_category-SameFor :
      (id : Uuid) (name desc : Text)
      → Preserves (SameFor u before) (update_category env t id name desc)
  unfolding update_category
  service_update_category-SameFor id name desc =
      search (preserve_rules, update_category-SameFor ne env id name desc)

  pub service_delete_category-SameFor :
      (id : Uuid) → Preserves (SameFor u before) (delete_category env t id)
  unfolding delete_category
  service_delete_category-SameFor id = search (preserve_rules, delete_category-SameFor ne env id)
