-- ===== src/Requests/Frames.antt =====
-- What the requests on accounts, customers, coupons, images and charges keep of the tables.
use agentic_mudahurus.Shared.{◌≡◌, refl, Option, List, Text, ◌==◌, update_where, map, arith}
use agentic_mudahurus.Shared.Int.{ℤ}
use agentic_mudahurus.Schema.{Uuid, Time, Tenant, PaymentRow, Customer, CouponRow, Db}
use agentic_mudahurus.World.{Env, ok, err, Result}
use agentic_mudahurus.World.Preserves.{
  Preserves, preserve_rules, Preserves-statement, affected_keeps, inserted_keeps,
}
use agentic_mudahurus.Tenancy.Identity.{Context, tid, from}
use agentic_mudahurus.Storage.{Disk, Upload}
use agentic_mudahurus.Storage.Uploads.{Preserves-put_object, Preserves-delete_object}
use agentic_mudahurus.Auth.Tokens.{Crypto}
use agentic_mudahurus.Auth.Store
use agentic_mudahurus.Auth.Service as Auth
use agentic_mudahurus.Auth.Service.Kept.{
  Preserves-by_id, Preserves-fresh_hash, Preserves-long_enough,
}
use agentic_mudahurus.Catalog.Repo as Products
use agentic_mudahurus.Catalog.Service.Isolation.{Preserves-service_get_product}
use agentic_mudahurus.Catalog.Handler as Images
use agentic_mudahurus.Orders.Repo as Orders
use agentic_mudahurus.Orders.Service.Isolation.{Preserves-service_get}
use agentic_mudahurus.Customers
use agentic_mudahurus.Customers.{is_customer, forget_customer}
use agentic_mudahurus.Coupons
use agentic_mudahurus.Enhancements.Payments
use agentic_mudahurus.Requests.{context_of}

pub tid-context_of : (t : Uuid) → tid (context_of t) ≡ t
unfolding tid from
tid-context_of t = ground arith

-- A change of the account of `t` that leaves its id.
abbrev pub KeepsTenant : (Db → Type 0) → Uuid → Type 0
KeepsTenant P t =
    (f : Tenant → Tenant) (db : Db)
    → ((x : Tenant) → (f x).id ≡ x.id)
    → P db
    → P (record db { tenants = update_where (λ x. x.id == t) f db.tenants })

module _ {P : Db → Type 0} (env : Env) where
  -- ---- accounts ----

  module _ (crypto : Crypto) (t : Uuid) (keep : KeepsTenant P t) where
    write_profile-keeps :
        (name store phone : Text) → Preserves P (Store.update_profile env t name store phone)
    unfolding Store.update_profile
    write_profile-keeps name store phone =
        Preserves-statement env _ (λ k db h. keep _ db (λ x. refl) h)

    pub update_profile-keeps :
        (name store phone : Text) → Preserves P (Auth.update_profile env crypto t name store phone)
    unfolding Auth.update_profile
    update_profile-keeps name store phone =
        search (preserve_rules, write_profile-keeps, Preserves-by_id env crypto)

    update_password-keeps : (hash : Text) → Preserves P (Store.update_password env t hash)
    unfolding Store.update_password
    update_password-keeps hash = Preserves-statement env _ (λ k db h. keep _ db (λ x. refl) h)

    pub change_password-keeps :
        (old new : Text) → Preserves P (Auth.change_password env crypto t old new)
    unfolding Auth.change_password
    change_password-keeps old new =
        search
          (
            preserve_rules,
            update_password-keeps,
            Preserves-by_id env crypto,
            Preserves-fresh_hash env crypto,
            Preserves-long_enough env crypto,
          )
          depth 9

  -- ---- customers ----

  module _ (keep : (cs : List Customer) (db : Db) → P db → P (record db { customers = cs }))
      (parse_date : Text → Option Time) where
    create-keeps : (c : Customer) → Preserves P (Customers.create env c)
    unfolding Customers.create
    create-keeps c =
        Preserves-statement env _ λ k db h. inserted_keeps P _ _ _ db h λ fits. keep _ db h

    update-keeps : (c : Customer) → Preserves P (Customers.update env c)
    unfolding Customers.update
    update-keeps c =
        Preserves-statement env _ λ k db h. affected_keeps P _ _ _ _ db h λ found. keep _ db h

    bind-keeps : (input : Customers.Input) → Preserves P (Customers.bind parse_date input)
    unfolding Customers.bind
    bind-keeps input = search preserve_rules

    assign_code-keeps : (c : Customer) → Preserves P (Customers.assign_code env c)
    unfolding Customers.assign_code Customers.put_code
    assign_code-keeps c = search (preserve_rules, update-keeps)

    pub create_customer-keeps :
        (ctx : Context) (input : Customers.Input)
        → Preserves P (Customers.handle_create parse_date env ctx input)
    unfolding Customers.handle_create
    create_customer-keeps ctx input =
        search (preserve_rules, bind-keeps, create-keeps, assign_code-keeps)

    pub update_customer-keeps :
        (ctx : Context) (param : Text) (input : Customers.Input)
        → Preserves P (Customers.handle_update parse_date env ctx param input)
    unfolding Customers.handle_update
    update_customer-keeps ctx param input =
        search (preserve_rules, bind-keeps, update-keeps) depth 9

  module _
      (keep : (id : Uuid) (cs : List Customer) (db : Db)
        → P db
        → P (record db { customers = cs; orders = map (forget_customer id) db.orders })) where
    delete-keeps : (t id : Uuid) → Preserves P (Customers.delete env t id)
    unfolding Customers.delete
    delete-keeps t id =
        Preserves-statement env _ λ k db h. affected_keeps P _ _ _ _ db h λ found. keep id _ db h

    pub delete_customer-keeps :
        (ctx : Context) (param : Text) → Preserves P (Customers.handle_delete env ctx param)
    unfolding Customers.handle_delete
    delete_customer-keeps ctx param = search (preserve_rules, delete-keeps)

  -- ---- coupons ----

  module _ (keep : (cs : List CouponRow) (db : Db) → P db → P (record db { coupons = cs }))
      (parse_time : Text → Text → Option Time) where
    bind_coupon-keeps : (input : Coupons.Input) → Preserves P (Coupons.bind env parse_time input)
    unfolding Coupons.bind
    bind_coupon-keeps input = search preserve_rules

    coupon_create-keeps : (c : CouponRow) → Preserves P (Coupons.create env c)
    unfolding Coupons.create
    coupon_create-keeps c =
        Preserves-statement env _ λ k db h. inserted_keeps P _ _ _ db h λ fits. keep _ db h

    coupon_update-keeps : (c : CouponRow) → Preserves P (Coupons.update env c)
    unfolding Coupons.update
    coupon_update-keeps c =
        Preserves-statement env _ λ k db h. affected_keeps P _ _ _ _ db h λ found. keep _ db h

    coupon_delete-keeps : (t id : Uuid) → Preserves P (Coupons.delete env t id)
    unfolding Coupons.delete
    coupon_delete-keeps t id =
        Preserves-statement env _ λ k db h. affected_keeps P _ _ _ _ db h λ found. keep _ db h

    pub create_coupon-keeps :
        (ctx : Context) (input : Coupons.Input)
        → Preserves P (Coupons.handle_create env parse_time ctx input)
    unfolding Coupons.handle_create
    create_coupon-keeps ctx input = search (preserve_rules, bind_coupon-keeps, coupon_create-keeps)

    pub update_coupon-keeps :
        (ctx : Context) (param : Text) (input : Coupons.Input)
        → Preserves P (Coupons.handle_update env parse_time ctx param input)
    unfolding Coupons.handle_update
    update_coupon-keeps ctx param input =
        search (preserve_rules, bind_coupon-keeps, coupon_update-keeps) depth 9

    pub delete_coupon-keeps :
        (ctx : Context) (param : Text)
        → Preserves P (Coupons.handle_delete env parse_time ctx param)
    unfolding Coupons.handle_delete
    delete_coupon-keeps ctx param = search (preserve_rules, coupon_delete-keeps)

  -- ---- charges and images ----

  module _ (keep : (ps : List PaymentRow) (db : Db) → P db → P (record db { payments = ps })) where
    add_payment-keeps :
        (order : Uuid) (key : Text) (amount : ℤ)
        → Preserves P (Orders.add_payment env order key amount)
    unfolding Orders.add_payment
    add_payment-keeps order key amount =
        Preserves-statement env _ λ k db h. inserted_keeps P _ _ _ db h λ fits. keep _ db h

    pub charge-keeps :
        (upper : Text → Text) (base : Text) (ctx : Context) (param currency : Text)
        → Preserves P (Payments.charge env upper base ctx param currency)
    unfolding Payments.charge Payments.create_charge
    charge-keeps upper base ctx param currency =
        search (preserve_rules, Preserves-service_get, add_payment-keeps) depth 9

  clean_up-keeps :
      (disk : Disk) (key : Text) (r : Result Text) → Preserves P (Images.clean_up env disk key r)
  unfolding Images.clean_up
  clean_up-keeps disk key (ok old) = search (preserve_rules, Preserves-delete_object)
  clean_up-keeps disk key (err e) = search (preserve_rules, Preserves-delete_object)

  pub upload_image-keeps :
      (t : Uuid)
      (keep : (id : Uuid) (key : Text) → Preserves P (Products.set_product_image env t id key))
      (disk : Disk) (reason : Text) (ctx : Context) (param : Text) (image : Option Upload)
      → tid ctx ≡ t
      → Preserves P (Images.upload_image env disk reason ctx param image)
  unfolding Images.upload_image Images.parse_id Images.replace_image Images.store_image
      Images.settle_image
  upload_image-keeps t keep disk reason ctx param image own = rw own (
      search
        (preserve_rules, keep, clean_up-keeps, Preserves-put_object, Preserves-service_get_product)
        depth 12)
