-- ===== src/Orders/Service/Isolation.antt =====
-- The operations on orders for one tenant leave what another owns alone.
use agentic_mudahurus.Shared.{◌≡◌, ◌≢◌, refl, Bool, List, [], ◌∷◌, Text}
use agentic_mudahurus.Shared.Int.{ℤ}
use agentic_mudahurus.Schema.{Uuid, Status, OrderItem, Order, Payment, Db}
use agentic_mudahurus.World.{Env, map_error, ◌>>◌}
use agentic_mudahurus.World.Inversion.{map_error-ok}
use agentic_mudahurus.World.Preserves.{
  Preserves, preserve_rules, Preserves-bind, Preserves-map_error, bind_elim,
}
use agentic_mudahurus.Tenancy.{SameFor}
use agentic_mudahurus.Catalog.Service.Isolation.{Preserves-service_get_product_by_sku}
use agentic_mudahurus.Orders.Repo
use agentic_mudahurus.Orders.Repo.Queries.{get-found, found-tenant}
use agentic_mudahurus.Orders.Repo.Isolation.{
  set_payment_status-SameFor, Preserves-get, Preserves-list, create-SameFor, update_status-SameFor,
  update_details-SameFor, delete-SameFor,
}
use agentic_mudahurus.Orders.Service.{
  map_err, ItemInput, AdminInput, build_items, refuse_empty, new_order, create_admin,
  guest_checkout, move_status, update_status, edited, update_details, delete, attach_proof_urls,
  get, list, verify_payment,
}

module _ {P : Db → Type 0} (env : Env) where
  pub Preserves-build_items :
      (tenant : Uuid) (is : List ItemInput) → Preserves P (build_items env tenant is)
  unfolding build_items
  Preserves-build_items tenant [] = search preserve_rules
  Preserves-build_items tenant (i ∷ is) =
      let rest = Preserves-build_items tenant is in
      search (preserve_rules, Preserves-service_get_product_by_sku)

  pub Preserves-refuse_empty :
      (msg : Text) (is : List ItemInput) → Preserves P (refuse_empty msg is)
  unfolding refuse_empty
  Preserves-refuse_empty msg is = search preserve_rules

  Preserves-attach_proof_urls : (ps : List Payment) → Preserves P (attach_proof_urls env ps)
  unfolding attach_proof_urls
  Preserves-attach_proof_urls [] = search preserve_rules
  Preserves-attach_proof_urls (p ∷ ps) =
      let rest = Preserves-attach_proof_urls ps in search preserve_rules depth 7

  pub Preserves-service_get : (t id : Uuid) → Preserves P (get env t id)
  unfolding get
  Preserves-service_get t id = search (preserve_rules, Preserves-get, Preserves-attach_proof_urls)

  pub Preserves-service_list :
      (t : Uuid) (statuses : List Status) (search_text : Text) (limit offset : ℤ)
      → Preserves P (list env t statuses search_text limit offset)
  unfolding list
  Preserves-service_list t statuses search_text limit offset =
      Preserves-list env t statuses search_text limit offset

module _ {t u : Uuid} (ne : u ≢ t) {before : Db} (env : Env) where
  pub create_admin-SameFor :
      (input : AdminInput) → Preserves (SameFor u before) (create_admin env t input)
  unfolding create_admin
  create_admin-SameFor input =
      search
        (
          preserve_rules,
          Preserves-refuse_empty,
          Preserves-build_items,
          λ (is : List OrderItem).
              create-SameFor ne {before = before} env (new_order t input) is refl,
        )
        depth 8

  pub guest_checkout-SameFor :
      (input : AdminInput) → Preserves (SameFor u before) (guest_checkout env t input)
  unfolding guest_checkout
  guest_checkout-SameFor input =
      search (preserve_rules, Preserves-refuse_empty, create_admin-SameFor)

  write_status-SameFor :
      (id : Uuid) (to : Status)
      → Preserves (SameFor u before) (map_error map_err (Repo.update_status env t id to))
  write_status-SameFor id to = search (preserve_rules, update_status-SameFor ne env id to)

  move_status-SameFor :
      (id : Uuid) (o : Order) (to : Status)
      → Preserves (SameFor u before) (move_status env t id o to)
  unfolding move_status
  move_status-SameFor id o to =
      let write = Preserves-bind _ _ (write_status-SameFor id to) (λ _. Preserves-get env t id) in
      search preserve_rules

  pub service_update_status-SameFor :
      (id : Uuid) (to : Status) → Preserves (SameFor u before) (update_status env t id to)
  unfolding update_status
  service_update_status-SameFor id to = search (preserve_rules, Preserves-get, move_status-SameFor)

  edit-SameFor :
      (id : Uuid) (input : AdminInput) (o : Order)
      → o.row.tenant_id ≡ t
      → Preserves
          (SameFor u before)
          (map_error map_err (Repo.update_details env (edited o.row input)) >> Repo.get env t id)
  edit-SameFor id input o own =
      Preserves-bind _ _
        (Preserves-map_error map_err _ (update_details-SameFor ne env (edited o.row input) own))
        (λ _. Preserves-get env t id)

  -- The order that is written back is the tenant's own, since it was read as such.
  pub service_update_details-SameFor :
      (id : Uuid) (input : AdminInput)
      → Preserves (SameFor u before) (update_details env t id input)
  unfolding update_details
  service_update_details-SameFor id input = record {
    holds = λ w h.
        let read : Preserves (SameFor u before) (map_error map_err (Repo.get env t id)) =
          search (preserve_rules, Preserves-get) in
        bind_elim (λ s. SameFor u before s.1.db) (map_error map_err (Repo.get env t id)) _ w
          (λ o e.
            let found = get-found env t id w o (map_error-ok map_err (Repo.get env t id) w o e) in
            (edit-SameFor id input o (found-tenant t id w.db.orders o.row found).1).holds _
              (read.holds w h))
          (λ x e. read.holds w h);
  }

  pub service_delete-SameFor : (id : Uuid) → Preserves (SameFor u before) (delete env t id)
  unfolding delete
  service_delete-SameFor id = search (preserve_rules, delete-SameFor ne env id)

module _ {u : Uuid} {before : Db} (env : Env) where
  pub verify_payment-SameFor :
      (t id : Uuid) (accept : Bool) → Preserves (SameFor u before) (verify_payment env t id accept)
  unfolding verify_payment
  verify_payment-SameFor t id accept = search (preserve_rules, set_payment_status-SameFor)
