-- ===== src/Catalog/Service/Frame.antt =====
-- The catalogue's operations write no row of `orders`.
use agentic_mudahurus.Shared.{List, Text, Option}
use agentic_mudahurus.Schema.{Uuid, Product, OrderRow}
use agentic_mudahurus.World.{Env}
use agentic_mudahurus.World.Preserves.{
  Preserves, preserve_rules, Preserves-bind, Preserves-lift, Preserves-map_error,
}
use agentic_mudahurus.Catalog.Repo.Frame.{
  OnOrders, create_category-OnOrders, update_category-OnOrders, delete_category-OnOrders,
  create_product-OnOrders, update_product-OnOrders, delete_product-OnOrders,
}
use agentic_mudahurus.Catalog.Repo.Isolation.{Preserves-get_product}
use agentic_mudahurus.Catalog.Service.{
  ProductInput, create_product, update_product, delete_product, create_category, update_category,
  delete_category, map_err, validate_category, new_product, changed_product,
}
use agentic_mudahurus.Catalog.Service.Isolation.{Preserves-check_sku}

module _ (Q : List OrderRow → Type 0) (env : Env) (t : Uuid) where
  pub service_create_product-OnOrders :
      (input : ProductInput) → Preserves (OnOrders Q) (create_product env t input)
  unfolding create_product
  service_create_product-OnOrders input =
      search
        (
          preserve_rules,
          Preserves-check_sku,
          λ (c : Option Uuid). create_product-OnOrders Q env (new_product env t c input),
        )
        depth 8

  pub service_update_product-OnOrders :
      (id : Uuid) (input : ProductInput) → Preserves (OnOrders Q) (update_product env t id input)
  unfolding update_product
  service_update_product-OnOrders id input =
      search
        (
          preserve_rules,
          Preserves-check_sku,
          Preserves-get_product,
          λ (x : Product) (c : Option Uuid).
              update_product-OnOrders Q env (changed_product t id x c input),
        )
        depth 9

  pub service_delete_product-OnOrders :
      (id : Uuid) → Preserves (OnOrders Q) (delete_product env t id)
  unfolding delete_product
  service_delete_product-OnOrders id = search (preserve_rules, delete_product-OnOrders Q env t id)

  pub service_create_category-OnOrders :
      (name desc : Text) → Preserves (OnOrders Q) (create_category env t name desc)
  unfolding create_category
  service_create_category-OnOrders name desc =
      Preserves-bind _ _ (Preserves-lift (validate_category name))
        λ _. create_category-OnOrders Q env t name desc

  pub service_update_category-OnOrders :
      (id : Uuid) (name desc : Text) → Preserves (OnOrders Q) (update_category env t id name desc)
  unfolding update_category
  service_update_category-OnOrders id name desc =
      Preserves-bind _ _ (Preserves-lift (validate_category name))
        λ _. Preserves-map_error map_err _ (update_category-OnOrders Q env t id name desc)

  pub service_delete_category-OnOrders :
      (id : Uuid) → Preserves (OnOrders Q) (delete_category env t id)
  unfolding delete_category
  service_delete_category-OnOrders id = search (preserve_rules, delete_category-OnOrders Q env t id)
