-- ===== src/Requests/Statuses.antt =====
-- The statuses of all orders over any sequence of requests.
use agentic_mudahurus.Shared.{
  ◌≡◌, refl, sym, subst, ap, false, some, Option, List, [], ◌∷◌, map, All, Text, arith, Bool-cases,
  inl, inr,
}
use agentic_mudahurus.Schema.{Uuid, OrderRow, Customer, Db}
use agentic_mudahurus.World.{World, Env}
use agentic_mudahurus.World.Preserves.{
  Preserves, preserve_rules, Preserves-statement, affected_keeps,
}
use agentic_mudahurus.Storage.{Disk, Upload}
use agentic_mudahurus.Auth.Service as Auth
use agentic_mudahurus.Catalog.Repo as Products
use agentic_mudahurus.Catalog.Handler as Images
use agentic_mudahurus.Orders.Repo.{is_order}
use agentic_mudahurus.Customers
use agentic_mudahurus.Customers.{forget_customer}
use agentic_mudahurus.Coupons
use agentic_mudahurus.Enhancements.Router.{ProposedAction}
use agentic_mudahurus.Enhancements.Copilot.{copilot_execute}
use agentic_mudahurus.Enhancements.Copilot.Execution.{copilot_execute-keeps}
use agentic_mudahurus.Enhancements.Payments
use agentic_mudahurus.Requests.Frames.{
  tid-context_of, update_profile-keeps, change_password-keeps, create_customer-keeps,
  update_customer-keeps, delete_customer-keeps, create_coupon-keeps, update_coupon-keeps,
  delete_coupon-keeps, charge-keeps, upload_image-keeps,
}
use agentic_mudahurus.Catalog.Service.Isolation.{
  Preserves-service_get_product, Preserves-service_get_product_by_sku,
  Preserves-service_list_products,
}
use agentic_mudahurus.Catalog.Service.Frame.{
  service_create_product-OnOrders, service_update_product-OnOrders, service_delete_product-OnOrders,
  service_create_category-OnOrders, service_update_category-OnOrders,
  service_delete_category-OnOrders,
}
use agentic_mudahurus.Orders.Service.Isolation.{Preserves-service_get, Preserves-service_list}
use agentic_mudahurus.Orders.Service.Lifecycle.{
  Lawful, create_admin-Lawful, guest_checkout-Lawful, update_details-Lawful, expire_stale-Lawful,
  update_status-Lawful, verify_payment-Lawful,
}
use agentic_mudahurus.Orders.Service.Lifecycle.Rows.{
  IsLawful, Moved, status_at, IsLawful-refl, IsLawful-trans,
}
use agentic_mudahurus.Orders.Service.Lifecycle.Proof.{add_payment_proof-Lawful}
use agentic_mudahurus.Requests.{
  Outside, Call, create_product, update_product, delete_product, upload_image, create_category,
  update_category, delete_category, delete_order, update_profile, change_password, create_customer,
  update_customer, delete_customer, create_coupon, update_coupon, delete_coupon, charge,
  execute_action, context_of, Request, seller, upload_proof, gateway, sweep, perform, serve,
  serve_all, passes_over,
}

ruleset lawful_rules = (
  preserve_rules, Preserves-service_get_product, Preserves-service_get_product_by_sku,
  Preserves-service_list_products, Preserves-service_get, Preserves-service_list,
  create_admin-Lawful, guest_checkout-Lawful, update_details-Lawful, update_status-Lawful,
  verify_payment-Lawful, add_payment_proof-Lawful, expire_stale-Lawful,
)

status_at-forgotten :
    (t id c : Uuid) (os : List OrderRow)
    → status_at t id (map (forget_customer c) os) ≡ status_at t id os
status_at-forgotten t id c [] = refl
status_at-forgotten t id c (o ∷ os) =
    let found : is_order t id (forget_customer c o) ≡ is_order t id o = ground arith in
    let kept : (forget_customer c o).status ≡ o.status = ground arith in
    elim (Bool-cases (is_order t id o)) [
      | inl e ↦ rw (found, e) (ap some kept)
      | inr e ↦ rw (found, e) (status_at-forgotten t id c os)
    ]

-- A deleted customer is taken off the orders, whose statuses stay.
forgotten-IsLawful :
    (before : List OrderRow) (c : Uuid) (cs : List Customer) (db : Db)
    → Lawful before db
    → Lawful before (record db { customers = cs; orders = map (forget_customer c) db.orders })
forgotten-IsLawful before c cs db h = record {
  holds = λ t id.
      subst (Moved (status_at t id before)) (sym (status_at-forgotten t id c db.orders))
        (h.holds t id);
}

module _ (before : List OrderRow) (env : Env) (out : Outside) (t : Uuid) where
  set_image-Lawful :
      (id : Uuid) (key : Text) → Preserves (Lawful before) (Products.set_product_image env t id key)
  unfolding Products.set_product_image
  set_image-Lawful id key =
      Preserves-statement env _ λ k db h. affected_keeps (Lawful before) _ _ _ _ db h λ found. h

  upload_image-Lawful :
      (disk : Disk) (reason param : Text) (image : Option Upload)
      → Preserves (Lawful before) (Images.upload_image env disk reason (context_of t) param image)
  upload_image-Lawful disk reason param image =
      upload_image-keeps env t set_image-Lawful disk reason (context_of t) param image
        (tid-context_of t)

  update_profile-Lawful :
      (name store phone : Text)
      → Preserves (Lawful before) (Auth.update_profile env out.crypto t name store phone)
  update_profile-Lawful = update_profile-keeps env out.crypto t (λ f db same h. h)

  change_password-Lawful :
      (old new : Text) → Preserves (Lawful before) (Auth.change_password env out.crypto t old new)
  change_password-Lawful = change_password-keeps env out.crypto t (λ f db same h. h)

  create_customer-Lawful :
      (input : Customers.Input)
      → Preserves (Lawful before) (Customers.handle_create out.parse_date env (context_of t) input)
  create_customer-Lawful = create_customer-keeps env (λ cs db h. h) out.parse_date (context_of t)

  update_customer-Lawful :
      (param : Text) (input : Customers.Input)
      → Preserves
          (Lawful before)
          (Customers.handle_update out.parse_date env (context_of t) param input)
  update_customer-Lawful = update_customer-keeps env (λ cs db h. h) out.parse_date (context_of t)

  delete_customer-Lawful :
      (param : Text) → Preserves (Lawful before) (Customers.handle_delete env (context_of t) param)
  delete_customer-Lawful = delete_customer-keeps env (forgotten-IsLawful before) (context_of t)

  create_coupon-Lawful :
      (input : Coupons.Input)
      → Preserves (Lawful before) (Coupons.handle_create env out.parse_time (context_of t) input)
  create_coupon-Lawful = create_coupon-keeps env (λ cs db h. h) out.parse_time (context_of t)

  update_coupon-Lawful :
      (param : Text) (input : Coupons.Input)
      → Preserves
          (Lawful before)
          (Coupons.handle_update env out.parse_time (context_of t) param input)
  update_coupon-Lawful = update_coupon-keeps env (λ cs db h. h) out.parse_time (context_of t)

  delete_coupon-Lawful :
      (param : Text)
      → Preserves (Lawful before) (Coupons.handle_delete env out.parse_time (context_of t) param)
  delete_coupon-Lawful = delete_coupon-keeps env (λ cs db h. h) out.parse_time (context_of t)

  charge-Lawful :
      (param currency : Text)
      → Preserves
          (Lawful before)
          (Payments.charge env out.upper out.public_base (context_of t) param currency)
  charge-Lawful = charge-keeps env (λ ps db h. h) out.upper out.public_base (context_of t)

  copilot_execute-Lawful :
      (act : ProposedAction)
      → Preserves
          (Lawful before)
          (copilot_execute env out.upper out.parse_float out.collates out.like (context_of t) act)
  copilot_execute-Lawful act =
      copilot_execute-keeps env out.upper out.parse_float out.collates t
        (service_create_product-OnOrders (IsLawful before) env t)
        (service_update_product-OnOrders (IsLawful before) env t)
        (λ name. service_create_category-OnOrders (IsLawful before) env t name [])
        (update_status-Lawful before env t) out.like (context_of t) act (tid-context_of t)

module _ (before : List OrderRow) (env : Env) (out : Outside) where
  perform-Lawful :
      (t : Uuid) (call : Call)
      → passes_over (seller t call) ≡ false
      → Preserves (Lawful before) (perform env out t call)
  unfolding perform
  perform-Lawful t (create_product input) h =
      search (preserve_rules, service_create_product-OnOrders (IsLawful before) env t input)
  perform-Lawful t (update_product id input) h =
      search (preserve_rules, service_update_product-OnOrders (IsLawful before) env t id input)
  perform-Lawful t (delete_product id) h =
      service_delete_product-OnOrders (IsLawful before) env t id
  perform-Lawful t (create_category name desc) h =
      search (preserve_rules, service_create_category-OnOrders (IsLawful before) env t name desc)
  perform-Lawful t (update_category id name desc) h =
      service_update_category-OnOrders (IsLawful before) env t id name desc
  perform-Lawful t (delete_category id) h =
      service_delete_category-OnOrders (IsLawful before) env t id
  perform-Lawful t (delete_order id) h = cc
  perform-Lawful t (upload_image disk reason param image) h =
      search (preserve_rules, upload_image-Lawful before env out t disk reason param image)
  perform-Lawful t (update_profile name store phone) h =
      search (preserve_rules, update_profile-Lawful before env out t name store phone)
  perform-Lawful t (change_password old new) h = change_password-Lawful before env out t old new
  perform-Lawful t (create_customer input) h =
      search (preserve_rules, create_customer-Lawful before env out t input)
  perform-Lawful t (update_customer param input) h =
      search (preserve_rules, update_customer-Lawful before env out t param input)
  perform-Lawful t (delete_customer param) h = delete_customer-Lawful before env out t param
  perform-Lawful t (create_coupon input) h =
      search (preserve_rules, create_coupon-Lawful before env out t input)
  perform-Lawful t (update_coupon param input) h =
      search (preserve_rules, update_coupon-Lawful before env out t param input)
  perform-Lawful t (delete_coupon param) h = delete_coupon-Lawful before env out t param
  perform-Lawful t (charge param currency) h =
      search (preserve_rules, charge-Lawful before env out t param currency)
  perform-Lawful t (execute_action act) h =
      search (preserve_rules, copilot_execute-Lawful before env out t act)
  perform-Lawful t _ h = search lawful_rules

  serve-Lawful : (r : Request) → passes_over r ≡ false → Preserves (Lawful before) (serve env out r)
  unfolding serve
  serve-Lawful (seller t call) h = perform-Lawful t call h
  serve-Lawful (upload_proof order key amount) h = search lawful_rules
  serve-Lawful (gateway call) h = cc
  serve-Lawful sweep h = search lawful_rules

-- The state machine of orders. Over any sequence of requests of `Request` in which no order is deleted and the
-- payment gateway does not call back (both pass over the transitions: a deletion takes the order away,
-- and the callback writes payment_accepted whatever the status), whichever statements fail: an order
-- that was there is there still, at a status that the allowed transitions reach from the one it had;
-- and a new order is at a status that they reach from pending.
pub statuses-IsLawful :
    (env : Env) (out : Outside) (rs : List Request) (w : World)
    → All (λ r. passes_over r ≡ false) rs
    → IsLawful w.db.orders (serve_all env out rs w).db.orders
unfolding serve_all
statuses-IsLawful env out [] w h = IsLawful-refl w.db.orders
statuses-IsLawful env out (r ∷ rs) w (keep, h) =
    IsLawful-trans w.db.orders (serve env out r w).1.db.orders _
      ((serve-Lawful w.db.orders env out r keep).holds w (IsLawful-refl w.db.orders))
      (statuses-IsLawful env out rs (serve env out r w).1 h)
