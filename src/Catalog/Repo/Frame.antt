-- ===== src/Catalog/Repo/Frame.antt =====
-- The catalogue's statements write no row of `orders`.
use agentic_mudahurus.Shared.{List, Text}
use agentic_mudahurus.Schema.{Uuid, ProductRow, OrderRow, Db}
use agentic_mudahurus.World.{Env}
use agentic_mudahurus.World.Preserves.{
  Preserves, Preserves-statement, affected_keeps, inserted_keeps,
}
use agentic_mudahurus.Catalog.Repo.{
  create_category, update_category, delete_category, create_product, update_product, delete_product,
}

abbrev pub OnOrders : (List OrderRow → Type 0) → Db → Type 0
OnOrders Q db = Q db.orders

module _ (Q : List OrderRow → Type 0) (env : Env) where
  pub create_category-OnOrders :
      (t : Uuid) (name desc : Text) → Preserves (OnOrders Q) (create_category env t name desc)
  unfolding create_category
  create_category-OnOrders t name desc =
      Preserves-statement env _ λ k db h. inserted_keeps (OnOrders Q) _ _ _ db h λ _. h

  pub update_category-OnOrders :
      (t id : Uuid) (name desc : Text) → Preserves (OnOrders Q) (update_category env t id name desc)
  unfolding update_category
  update_category-OnOrders t id name desc =
      Preserves-statement env _ λ k db h. affected_keeps (OnOrders Q) _ _ _ _ db h λ _. h

  pub delete_category-OnOrders : (t id : Uuid) → Preserves (OnOrders Q) (delete_category env t id)
  unfolding delete_category
  delete_category-OnOrders t id =
      Preserves-statement env _ λ k db h. affected_keeps (OnOrders Q) _ _ _ _ db h λ _. h

  pub create_product-OnOrders : (p : ProductRow) → Preserves (OnOrders Q) (create_product env p)
  unfolding create_product
  create_product-OnOrders p =
      Preserves-statement env _ λ k db h. inserted_keeps (OnOrders Q) _ _ _ db h λ _. h

  pub update_product-OnOrders : (p : ProductRow) → Preserves (OnOrders Q) (update_product env p)
  unfolding update_product
  update_product-OnOrders p =
      Preserves-statement env _ λ k db h. affected_keeps (OnOrders Q) _ _ _ _ db h λ _. h

  pub delete_product-OnOrders : (t id : Uuid) → Preserves (OnOrders Q) (delete_product env t id)
  unfolding delete_product
  delete_product-OnOrders t id =
      Preserves-statement env _ λ k db h. affected_keeps (OnOrders Q) _ _ _ _ db h λ _. h
