-- ===== src/Requests/Owned.antt =====
-- What one request of another seller leaves of a seller's rows.
use agentic_mudahurus.Shared.{
  ◌≡◌, ◌≢◌, ◌∙◌, Bool, true, false, List, select-update_where, ◌==◌, arith,
}
use agentic_mudahurus.Schema.{Uuid, PaymentRow, Customer, CouponRow, Db}
use agentic_mudahurus.World.{Env}
use agentic_mudahurus.World.Preserves.{Preserves, preserve_rules}
use agentic_mudahurus.Tenancy.{SameFor, foreign_row}
use agentic_mudahurus.Catalog.Repo.Isolation.{set_product_image-SameFor}
use agentic_mudahurus.Enhancements.Copilot.Execution.{copilot_execute-SameFor}
use agentic_mudahurus.Requests.Frames.{
  tid-context_of, KeepsTenant, update_profile-keeps, change_password-keeps, create_customer-keeps,
  update_customer-keeps, create_coupon-keeps, update_coupon-keeps, delete_coupon-keeps,
  charge-keeps, upload_image-keeps,
}
use agentic_mudahurus.Catalog.Service.Isolation.{
  Preserves-service_get_product, Preserves-service_get_product_by_sku,
  Preserves-service_list_products, service_create_product-SameFor, service_update_product-SameFor,
  service_delete_product-SameFor, service_create_category-SameFor, service_update_category-SameFor,
  service_delete_category-SameFor,
}
use agentic_mudahurus.Orders.Service.Isolation.{
  Preserves-service_get, Preserves-service_list, create_admin-SameFor, guest_checkout-SameFor,
  service_update_status-SameFor, service_update_details-SameFor, service_delete-SameFor,
  verify_payment-SameFor,
}
use agentic_mudahurus.Requests.{
  Outside, Call, create_product, update_product, delete_product, upload_image, create_category,
  update_category, delete_category, create_order, checkout, update_order, set_status, delete_order,
  verify_payment, update_profile, change_password, create_customer, update_customer,
  delete_customer, create_coupon, update_coupon, delete_coupon, charge, execute_action, context_of,
  perform,
}

ruleset query_rules = (
  Preserves-service_get_product, Preserves-service_get_product_by_sku,
  Preserves-service_list_products, Preserves-service_get, Preserves-service_list,
)

module _ {u : Uuid} {before : Db} where
  with_customers :
      (cs : List Customer) (db : Db)
      → SameFor u before db
      → SameFor u before (record db { customers = cs })
  with_customers cs db h = record {
    account = h.account;
    categories = h.categories;
    products = h.products;
    orders = h.orders;
  }

  with_coupons :
      (cs : List CouponRow) (db : Db)
      → SameFor u before db
      → SameFor u before (record db { coupons = cs })
  with_coupons cs db h = record {
    account = h.account;
    categories = h.categories;
    products = h.products;
    orders = h.orders;
  }

  with_payments :
      (ps : List PaymentRow) (db : Db)
      → SameFor u before db
      → SameFor u before (record db { payments = ps })
  with_payments ps db h = record {
    account = h.account;
    categories = h.categories;
    products = h.products;
    orders = h.orders;
  }

-- A change of the account of `t`.
account-SameFor : {t u : Uuid} → u ≢ t → {before : Db} → KeepsTenant (SameFor u before) t
account-SameFor {t} {u} ne f db same h = record {
  account =
      select-update_where (λ x. x.id == u) (λ x. x.id == t) f db.tenants
        (λ x e.
          let own : x.id ≡ t = ground arith in
          (rw own (foreign_row t u ne), rw (same x ∙ own) (foreign_row t u ne)))
      ∙ h.account;
  categories = h.categories;
  products = h.products;
  orders = h.orders;
}

-- Only the deletion of a customer can change an order of another seller: its link to that customer.
abbrev pub deletes_customer : Call → Bool
deletes_customer (delete_customer param) = true
deletes_customer _ = false

module _ {t u : Uuid} (ne : u ≢ t) {before : Db} (env : Env) (out : Outside) where
  pub perform-SameFor :
      (call : Call)
      → deletes_customer call ≡ false
      → Preserves (SameFor u before) (perform env out t call)
  unfolding perform
  perform-SameFor (create_product input) h =
      search (preserve_rules, service_create_product-SameFor ne {before = before} env input)
  perform-SameFor (update_product id input) h =
      search (preserve_rules, service_update_product-SameFor ne {before = before} env id input)
  perform-SameFor (delete_product id) h = service_delete_product-SameFor ne env id
  perform-SameFor (upload_image disk reason param image) h =
      let upload =
        upload_image-keeps {P = SameFor u before} env t (set_product_image-SameFor ne env) disk
          reason (context_of t) param image (tid-context_of t) in
      search (preserve_rules, upload)
  perform-SameFor (create_category name desc) h =
      search (preserve_rules, service_create_category-SameFor ne {before = before} env name desc)
  perform-SameFor (update_category id name desc) h =
      service_update_category-SameFor ne env id name desc
  perform-SameFor (delete_category id) h = service_delete_category-SameFor ne env id
  perform-SameFor (create_order input) h =
      search (preserve_rules, create_admin-SameFor ne {before = before} env input)
  perform-SameFor (checkout input) h =
      search (preserve_rules, guest_checkout-SameFor ne {before = before} env input)
  perform-SameFor (update_order id input) h =
      search (preserve_rules, service_update_details-SameFor ne {before = before} env id input)
  perform-SameFor (set_status id to) h =
      search (preserve_rules, service_update_status-SameFor ne {before = before} env id to)
  perform-SameFor (delete_order id) h = service_delete-SameFor ne env id
  perform-SameFor (verify_payment id accept) h = verify_payment-SameFor env t id accept
  perform-SameFor (update_profile name store phone) h =
      let write =
        update_profile-keeps {P = SameFor u before} env out.crypto t (account-SameFor ne) name store
          phone in
      search (preserve_rules, write)
  perform-SameFor (change_password old new) h =
      change_password-keeps env out.crypto t (account-SameFor ne) old new
  perform-SameFor (create_customer input) h =
      let write =
        create_customer-keeps {P = SameFor u before} env (λ cs db h. with_customers cs db h)
          out.parse_date (context_of t) input in
      search (preserve_rules, write)
  perform-SameFor (update_customer param input) h =
      let write =
        update_customer-keeps {P = SameFor u before} env (λ cs db h. with_customers cs db h)
          out.parse_date (context_of t) param input in
      search (preserve_rules, write)
  perform-SameFor (delete_customer param) h = cc
  perform-SameFor (create_coupon input) h =
      let write =
        create_coupon-keeps {P = SameFor u before} env (λ cs db h. with_coupons cs db h)
          out.parse_time (context_of t) input in
      search (preserve_rules, write)
  perform-SameFor (update_coupon param input) h =
      let write =
        update_coupon-keeps {P = SameFor u before} env (λ cs db h. with_coupons cs db h)
          out.parse_time (context_of t) param input in
      search (preserve_rules, write)
  perform-SameFor (delete_coupon param) h =
      delete_coupon-keeps env (λ cs db h. with_coupons cs db h) out.parse_time (context_of t) param
  perform-SameFor (charge param currency) h =
      let write =
        charge-keeps {P = SameFor u before} env (λ ps db h. with_payments ps db h) out.upper
          out.public_base (context_of t) param currency in
      search (preserve_rules, write)
  perform-SameFor (execute_action act) h =
      let act_for =
        copilot_execute-SameFor ne {before = before} env out.upper out.parse_float out.collates
          out.like (context_of t) act (tid-context_of t) in
      search (preserve_rules, act_for)
  perform-SameFor _ h = search (preserve_rules, query_rules)
