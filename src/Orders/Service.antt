-- ===== src/Orders/Service.antt =====
-- api/internal/orders/service.go
pub mod Isolation
pub mod Lifecycle
pub mod Answers
pub mod Creation
pub mod Transitions
pub mod Payments
use agentic_mudahurus.Shared.{
  ℕ, Bool, true, false, Option, none, some, List, [], ◌∷◌, ◌++◌, not, if◌then◌else◌, Text, codes,
  is_empty,
}
use agentic_mudahurus.Shared.Int.{ℤ, pos, leb_ℤ, is_zero_ℤ}
use agentic_mudahurus.Schema.{
  Uuid, Status, pending, payment_received, payment_accepted, shipped, expired, cancelled, other,
  Product, ShippingAddress, OrderRow, OrderItem, Order, PaymentStatus, verified, Payment,
}
use agentic_mudahurus.World.{
  Error, not_found, failure, api, Result, ok, err, order_created, payment_uploaded, World, Env,
  Action, pure, raise, lift, try, map_error, emit, sign_url, ◌>>=◌, ◌>>◌,
}
use agentic_mudahurus.Httpx.Errors.{bad_request, missing}
use agentic_mudahurus.Httpx.Validation.{new_validator, require_field, verdict}
use agentic_mudahurus.Catalog.Service as Catalog
use agentic_mudahurus.Orders.Status.{status_eq, can_transition}
use agentic_mudahurus.Orders.Repo

-- `mapErr`
unfoldable pub map_err : Error → Error
map_err not_found = missing (codes "order not found")
map_err failure = failure
map_err (api e) = api e

pub record ItemInput : Type 0 where
  pub sku : Text
  pub quantity : ℤ
  pub unit_price : ℤ

pub record AdminInput : Type 0 where
  pub full_name : Text
  pub email : Text
  pub contact_no : Text
  pub shipping_address : ShippingAddress
  pub additional_notes : Text
  pub items : List ItemInput

-- `if in.Quantity <= 0 { in.Quantity = 1 }`
abbrev pub at_least_one : ℤ → ℤ
at_least_one q = if leb_ℤ q (pos 0) then pos 1 else q

-- `if it.UnitPrice == 0 { it.UnitPrice = p.UnitPrice }`
abbrev pub price_or : ℤ → ℤ → ℤ
price_or asked listed = if is_zero_ℤ asked then listed else asked

-- An item, enriched from the catalogue if its SKU resolves.
unfoldable pub enrich : ItemInput → Result Product → OrderItem
enrich input (ok p) = record {
  id = 0;
  order_id = 0;
  product_id = some p.id;
  sku = input.sku;
  product_name = p.product_name;
  quantity = at_least_one input.quantity;
  unit_price = price_or input.unit_price p.unit_price;
  line_total = pos 0;
}
enrich input (err e) = record {
  id = 0;
  order_id = 0;
  product_id = none;
  sku = input.sku;
  product_name = [];
  quantity = at_least_one input.quantity;
  unit_price = input.unit_price;
  line_total = pos 0;
}

unfoldable pub build_items : Env → Uuid → List ItemInput → Action (List OrderItem)
unfolding enrich
build_items env tenant [] = pure []
build_items env tenant (i ∷ is) = do
  p ← try (Catalog.get_product_by_sku env tenant i.sku)
  rest ← build_items env tenant is
  pure (enrich i p ∷ rest)

abbrev no_items : List ItemInput → Bool
no_items [] = true
no_items (i ∷ is) = false

abbrev pub new_order : Uuid → AdminInput → OrderRow
new_order tenant input = record {
  id = 0;
  tenant_id = tenant;
  customer_id = none;
  status = pending;
  full_name = input.full_name;
  email = input.email;
  contact_no = input.contact_no;
  shipping_address = input.shipping_address;
  additional_notes = input.additional_notes;
  total_price = pos 0;
  expired_date = 0;
  created_at = 0;
}

unfoldable pub refuse_empty : Text → List ItemInput → Action (Unit {0})
refuse_empty msg items = if no_items items then raise (bad_request msg) else pure tt

unfoldable pub create_admin : Env → Uuid → AdminInput → Action Order
unfolding refuse_empty
create_admin env tenant input = do
  lift (verdict (require_field (codes "full_name") input.full_name new_validator))
  refuse_empty (codes "at least one item is required") input.items
  items ← build_items env tenant input.items
  o ← Repo.create env (new_order tenant input) items
  emit (record { type = order_created; tenant_id = tenant; source_id = o.id })
  pure o

unfoldable pub guest_checkout : Env → Uuid → AdminInput → Action Order
unfolding refuse_empty
guest_checkout env tenant input = do
  lift (
      verdict (
        require_field (codes "contact_no") input.contact_no
          (require_field (codes "full_name") input.full_name new_validator)))
  refuse_empty (codes "cart is empty") input.items
  create_admin env tenant input

unfoldable pub status_text : Status → Text
status_text pending = codes "pending"
status_text payment_received = codes "payment_received"
status_text payment_accepted = codes "payment_accepted"
status_text shipped = codes "shipped"
status_text expired = codes "expired"
status_text cancelled = codes "cancelled"
status_text Status.rejected = codes "rejected"
status_text (other s) = s

unfoldable pub bad_transition : Status → Status → Error
unfolding status_text
bad_transition from to =
    bad_request
      (codes "invalid status transition: " ++ status_text from ++ codes " -> " ++ status_text to)

-- the rest of `UpdateStatus` once the order is read
unfoldable pub move_status : Env → Uuid → Uuid → Order → Status → Action Order
move_status env tenant id o to =
    if status_eq o.status to
    then pure o
    else if not (can_transition o.status to)
    then raise (bad_transition o.status to)
    else do map_error map_err (Repo.update_status env tenant id to); Repo.get env tenant id

unfoldable pub update_status : Env → Uuid → Uuid → Status → Action Order
unfolding move_status
update_status env tenant id to = do
  o ← map_error map_err (Repo.get env tenant id)
  move_status env tenant id o to

abbrev pub edited : OrderRow → AdminInput → OrderRow
edited o input = record o {
  full_name = input.full_name;
  email = input.email;
  contact_no = input.contact_no;
  shipping_address = input.shipping_address;
  additional_notes = input.additional_notes;
}

unfoldable pub update_details : Env → Uuid → Uuid → AdminInput → Action Order
update_details env tenant id input = do
  o ← map_error map_err (Repo.get env tenant id)
  map_error map_err (Repo.update_details env (edited o.row input))
  Repo.get env tenant id

unfoldable pub delete : Env → Uuid → Uuid → Action (Unit {0})
delete env tenant id = map_error map_err (Repo.delete env tenant id)

-- `attachProofURLs`
abbrev proof_signed : Payment → Option Text → Payment
proof_signed p none = p
proof_signed p (some url) = record p { proof_url = url }

unfoldable pub attach_proof_urls : Env → List Payment → Action (List Payment)
attach_proof_urls env [] = pure []
attach_proof_urls env (p ∷ ps) = do
  q ←
      (if is_empty p.proof_key
        then pure p
        else do url ← sign_url env p.proof_key 3600; pure (proof_signed p url))
  qs ← attach_proof_urls env ps
  pure (q ∷ qs)

unfoldable pub get : Env → Uuid → Uuid → Action Order
unfolding attach_proof_urls
get env tenant id = do
  o ← map_error map_err (Repo.get env tenant id)
  payments ← attach_proof_urls env o.payments
  pure (record o { payments = payments })

unfoldable pub list : Env → Uuid → List Status → Text → ℤ → ℤ → Action (List OrderRow × ℕ)
list env tenant statuses search limit offset = Repo.list env tenant statuses search limit offset

-- `if o.Status == "pending" { _ = s.repo.UpdateStatus(…) }`: an error is dropped
unfoldable pub advance_pending : Env → Order → Uuid → Action (Unit {0})
advance_pending env o order =
    if status_eq o.status pending
    then (do try (Repo.update_status env o.tenant_id order payment_received); pure tt)
    else pure tt

unfoldable pub add_payment_proof : Env → Uuid → Text → ℤ → Action Payment
unfolding advance_pending
add_payment_proof env order proof_key amount = do
  o ← map_error map_err (Repo.get_by_id env order)
  p ← Repo.add_payment env order proof_key amount
  advance_pending env o order
  emit (record { type = payment_uploaded; tenant_id = o.tenant_id; source_id = order })
  pure p

unfoldable pub verify_payment : Env → Uuid → Uuid → Bool → Action (Unit {0})
verify_payment env tenant payment accept = map_error map_err (
    Repo.set_payment_status env tenant payment
      (if accept then verified else PaymentStatus.rejected))
