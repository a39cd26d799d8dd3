-- ===== src/Requests.antt =====
-- Requests as server.go mounts them, and what a sequence of them does: those of authenticated sellers that
-- write tables, with the reads of the catalogue and of the orders, and those of guests, of the payment
-- gateway and of the sweep that reach an order. Requests on accounts that need no token are those of
-- `Auth.Routes`. An error goes back to the client; what was written stays written.
pub mod Frames
pub mod Owned
pub mod Isolation
pub mod Statuses
pub mod Progress
use agentic_mudahurus.Shared.{ℕ, Bool, true, false, Option, some, List, [], ◌∷◌, Text, codes}
use agentic_mudahurus.Shared.Int.{ℤ}
use agentic_mudahurus.Schema.{Uuid, Time, Status}
use agentic_mudahurus.World.{World, Env, Action, pure, ◌>>=◌, ◌>>◌}
use agentic_mudahurus.Tenancy.Identity.{Context}
use agentic_mudahurus.Storage.{Disk, Upload}
use agentic_mudahurus.Auth.Tokens.{Crypto}
use agentic_mudahurus.Auth.Service as Auth
use agentic_mudahurus.Catalog.Service as Catalog
use agentic_mudahurus.Catalog.Service.{ProductInput}
use agentic_mudahurus.Catalog.Handler as Images
use agentic_mudahurus.Orders.Repo
use agentic_mudahurus.Orders.Service as Orders
use agentic_mudahurus.Orders.Service.{AdminInput}
use agentic_mudahurus.Customers
use agentic_mudahurus.Coupons
use agentic_mudahurus.Enhancements.Router.{ProposedAction}
use agentic_mudahurus.Enhancements.Copilot.{copilot_execute}
use agentic_mudahurus.Enhancements.Payments
use agentic_mudahurus.Enhancements.Payments.{Callback}

-- What the handlers call outside the tables, and the settings of the server.
pub record Outside : Type 0 where
  pub crypto : Crypto
  pub upper : Text → Text
  pub parse_float : Text → Option ℤ
  pub parse_date : Text → Option Time
  pub parse_time : Text → Text → Option Time
  pub collates : Text → Text → Bool
  pub like : Text → Text → Bool
  pub public_base : Text
  pub gateway_secret : Text

pub data Call : Type 0 where
  list_products : Text → (limit offset : ℤ) → Call
  create_product : ProductInput → Call
  get_product : Uuid → Call
  get_product_by_sku : Text → Call
  update_product : Uuid → ProductInput → Call
  delete_product : Uuid → Call
  -- with what the disk does to the file and the text of its error
  upload_image : Disk → (reason param : Text) → Option Upload → Call
  create_category : (name desc : Text) → Call
  update_category : Uuid → (name desc : Text) → Call
  delete_category : Uuid → Call
  list_orders : List Status → Text → (limit offset : ℤ) → Call
  create_order : AdminInput → Call
  -- from the public store of the seller
  checkout : AdminInput → Call
  get_order : Uuid → Call
  update_order : Uuid → AdminInput → Call
  set_status : Uuid → Status → Call
  delete_order : Uuid → Call
  verify_payment : Uuid → Bool → Call
  update_profile : (name store phone : Text) → Call
  change_password : (old new : Text) → Call
  create_customer : Customers.Input → Call
  update_customer : (param : Text) → Customers.Input → Call
  delete_customer : (param : Text) → Call
  create_coupon : Coupons.Input → Call
  update_coupon : (param : Text) → Coupons.Input → Call
  delete_coupon : (param : Text) → Call
  charge : (param currency : Text) → Call
  execute_action : ProposedAction → Call

-- The context that the guard makes for a seller.
abbrev pub context_of : Uuid → Context
context_of t = some (record { tenant_id = t; role = codes "seller"; username = [] })

abbrev pub done : {A : Type 0} → Action A → Action (Unit {0})
done m = m >>= λ _. pure tt

unfoldable pub perform : Env → Outside → Uuid → Call → Action (Unit {0})
perform env out t (list_products search limit offset) =
    done (Catalog.list_products env t search limit offset)
perform env out t (create_product input) = done (Catalog.create_product env t input)
perform env out t (get_product id) = done (Catalog.get_product env t id)
perform env out t (get_product_by_sku sku) = done (Catalog.get_product_by_sku env t sku)
perform env out t (update_product id input) = done (Catalog.update_product env t id input)
perform env out t (delete_product id) = Catalog.delete_product env t id
perform env out t (upload_image disk reason param image) =
    done (Images.upload_image env disk reason (context_of t) param image)
perform env out t (create_category name desc) = done (Catalog.create_category env t name desc)
perform env out t (update_category id name desc) = Catalog.update_category env t id name desc
perform env out t (delete_category id) = Catalog.delete_category env t id
perform env out t (list_orders statuses search limit offset) =
    done (Orders.list env t statuses search limit offset)
perform env out t (create_order input) = done (Orders.create_admin env t input)
perform env out t (checkout input) = done (Orders.guest_checkout env t input)
perform env out t (get_order id) = done (Orders.get env t id)
perform env out t (update_order id input) = done (Orders.update_details env t id input)
perform env out t (set_status id to) = done (Orders.update_status env t id to)
perform env out t (delete_order id) = Orders.delete env t id
perform env out t (verify_payment id accept) = Orders.verify_payment env t id accept
perform env out t (update_profile name store phone) =
    done (Auth.update_profile env out.crypto t name store phone)
perform env out t (change_password old new) = Auth.change_password env out.crypto t old new
perform env out t (create_customer input) =
    done (Customers.handle_create out.parse_date env (context_of t) input)
perform env out t (update_customer param input) =
    done (Customers.handle_update out.parse_date env (context_of t) param input)
perform env out t (delete_customer param) = Customers.handle_delete env (context_of t) param
perform env out t (create_coupon input) =
    done (Coupons.handle_create env out.parse_time (context_of t) input)
perform env out t (update_coupon param input) =
    done (Coupons.handle_update env out.parse_time (context_of t) param input)
perform env out t (delete_coupon param) =
    Coupons.handle_delete env out.parse_time (context_of t) param
perform env out t (charge param currency) =
    done (Payments.charge env out.upper out.public_base (context_of t) param currency)
perform env out t (execute_action act) =
    done (copilot_execute env out.upper out.parse_float out.collates out.like (context_of t) act)

-- The requests of several sellers, one after the other.
unfoldable pub run : Env → Outside → List (Uuid × Call) → World → World
run env out [] w = w
run env out ((t, call) ∷ calls) w = run env out calls (perform env out t call w).1

-- What can reach the orders: a seller's request, the public upload of a payment proof behind its checks,
-- the callback of the payment gateway, and the sweep that expires stale orders.
pub data Request : Type 0 where
  seller : Uuid → Call → Request
  upload_proof : (order : Uuid) (proof_key : Text) (amount : ℤ) → Request
  gateway : Callback → Request
  sweep : Request

unfoldable pub serve : Env → Outside → Request → Action (Unit {0})
unfolding perform
serve env out (seller t call) = perform env out t call
serve env out (upload_proof order key amount) = done (Orders.add_payment_proof env order key amount)
serve env out (gateway call) = Payments.payment_webhook env out.gateway_secret call
serve env out sweep = done (Repo.expire_stale env)

unfoldable pub serve_all : Env → Outside → List Request → World → World
serve_all env out [] w = w
serve_all env out (r ∷ rs) w = serve_all env out rs (serve env out r w).1

-- The requests that take no notice of the transitions: a deletion, and the callback.
abbrev pub passes_over : Request → Bool
passes_over (seller t (delete_order id)) = true
passes_over (gateway call) = true
passes_over _ = false
