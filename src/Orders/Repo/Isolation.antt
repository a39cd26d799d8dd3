-- ===== src/Orders/Repo/Isolation.antt =====
-- The statements of one tenant leave the orders of another alone.
use agentic_mudahurus.Shared.{
  ◌≡◌, ◌≢◌, List, [], ◌∷◌, select-update_where, select-delete_where, Text, ◌∙◌,
}
use agentic_mudahurus.Shared.Int.{ℤ}
use agentic_mudahurus.Schema.{Uuid, Time, Status, OrderRow, OrderItem, PaymentStatus, Db}
use agentic_mudahurus.World.{Env}
use agentic_mudahurus.World.Preserves.{
  Preserves, preserve_rules, Preserves-statement, Preserves-transaction, affected_keeps,
  inserted_keeps,
}
use agentic_mudahurus.Tenancy.{SameFor, SameFor-orders, select-insert, foreign_row, foreign_match}
use agentic_mudahurus.Orders.Repo.{
  is_order, expiry, insert_order, insert_item, insert_items, create_body, create, update_status,
  update_details, delete, load_children, get, get_by_id, list, add_payment, set_payment_status,
  priced, fill_totals,
}

-- What writes no row of `orders`.
module _ {u : Uuid} {before : Db} (env : Env) where
  insert_item-SameFor :
      (order : Uuid) (i : OrderItem) → Preserves (SameFor u before) (insert_item env order i)
  unfolding insert_item
  insert_item-SameFor order i = Preserves-statement env _ λ k db h.
      inserted_keeps (SameFor u before) _ _ _ db h λ fits. record {
        account = h.account;
        categories = h.categories;
        products = h.products;
        orders = h.orders;
      }

  insert_items-SameFor :
      (order : Uuid) (is : List OrderItem)
      → Preserves (SameFor u before) (insert_items env order is)
  unfolding insert_items
  insert_items-SameFor order [] = search preserve_rules
  insert_items-SameFor order (i ∷ is) =
      let rest = insert_items-SameFor order is in search (preserve_rules, insert_item-SameFor)

  pub add_payment-SameFor :
      (order : Uuid) (key : Text) (amount : ℤ)
      → Preserves (SameFor u before) (add_payment env order key amount)
  unfolding add_payment
  add_payment-SameFor order key amount = Preserves-statement env _ λ k db h.
      inserted_keeps (SameFor u before) _ _ _ db h λ fits. record {
        account = h.account;
        categories = h.categories;
        products = h.products;
        orders = h.orders;
      }

  pub set_payment_status-SameFor :
      (tenant id : Uuid) (status : PaymentStatus)
      → Preserves (SameFor u before) (set_payment_status env tenant id status)
  unfolding set_payment_status
  set_payment_status-SameFor tenant id status = Preserves-statement env _ λ k db h.
      affected_keeps (SameFor u before) _ _ _ _ db h λ found. record {
        account = h.account;
        categories = h.categories;
        products = h.products;
        orders = h.orders;
      }

-- The queries write nothing.
module _ {P : Db → Type 0} (env : Env) where
  pub Preserves-load_children : (o : OrderRow) → Preserves P (load_children env o)
  unfolding load_children
  Preserves-load_children o = search (preserve_rules, Preserves-statement)

  pub Preserves-get : (t id : Uuid) → Preserves P (get env t id)
  unfolding get
  Preserves-get t id = search (preserve_rules, Preserves-statement, Preserves-load_children)

  pub Preserves-get_by_id : (id : Uuid) → Preserves P (get_by_id env id)
  unfolding get_by_id
  Preserves-get_by_id id = search (preserve_rules, Preserves-statement, Preserves-load_children)

  pub Preserves-list :
      (t : Uuid) (statuses : List Status) (search_text : Text) (limit offset : ℤ)
      → Preserves P (list env t statuses search_text limit offset)
  unfolding list
  Preserves-list t statuses search_text limit offset = search (preserve_rules, Preserves-statement)

  pub Preserves-expiry : (date : Time) → Preserves P (expiry env date)
  unfolding expiry
  Preserves-expiry date = search preserve_rules

module _ {t u : Uuid} (ne : u ≢ t) {before : Db} (env : Env) where
  insert_order-SameFor :
      (o : OrderRow) → o.tenant_id ≡ t → Preserves (SameFor u before) (insert_order env o)
  unfolding insert_order
  insert_order-SameFor o own = Preserves-statement env _ λ k db h.
      inserted_keeps (SameFor u before) _ _ _ db h
        λ fits. SameFor-orders h _ (select-insert _ db.orders _ (rw own (foreign_row t u ne)))

  pub create-SameFor :
      (o : OrderRow) (is : List OrderItem)
      → o.tenant_id ≡ t
      → Preserves (SameFor u before) (create env o is)
  unfolding create
  create-SameFor o is own = Preserves-transaction env (create_body env o is) (
      search
        (
          preserve_rules,
          Preserves-expiry,
          insert_items-SameFor,
          λ (date : Time). insert_order-SameFor (priced o (fill_totals is) date) own,
        )
        depth 7)

  pub update_status-SameFor :
      (id : Uuid) (status : Status) → Preserves (SameFor u before) (update_status env t id status)
  unfolding update_status
  update_status-SameFor id status = Preserves-statement env _ λ k db h.
      affected_keeps (SameFor u before) _ _ _ _ db h λ found. SameFor-orders h _ (
        select-update_where _ (is_order t id) _ db.orders
          λ o e. let f = foreign_match t u id o.id o.tenant_id ne e in (f, f))

  pub update_details-SameFor :
      (o : OrderRow) → o.tenant_id ≡ t → Preserves (SameFor u before) (update_details env o)
  unfolding update_details
  update_details-SameFor o own = Preserves-statement env _ λ k db h.
      affected_keeps (SameFor u before) _ _ _ _ db h λ found. SameFor-orders h _ (
        select-update_where _ (is_order o.tenant_id o.id) _ db.orders
          λ p e. let f = foreign_match t u o.id p.id p.tenant_id ne (rw own at e) in (f, f))

  pub delete-SameFor : (id : Uuid) → Preserves (SameFor u before) (delete env t id)
  unfolding delete
  delete-SameFor id = Preserves-statement env _ λ k db h.
      affected_keeps (SameFor u before) _ _ _ _ db h λ found. record {
        account = h.account;
        categories = h.categories;
        products = h.products;
        orders =
            select-delete_where _ (is_order t id) db.orders
              (λ o e. foreign_match t u id o.id o.tenant_id ne e)
            ∙ h.orders;
      }
