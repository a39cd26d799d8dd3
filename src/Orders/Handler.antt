-- ===== src/Orders/Handler.antt =====
-- api/internal/orders/handler.go, behind the decoding of JSON and of the multipart form; and the look-up of
-- the seller that server/server.go hands to it. time.Format is an argument.
pub mod Proofs
pub mod Uploads
use agentic_mudahurus.Shared.{
  ℕ, Bool, true, false, Option, List, [], ◌∷◌, ◌++◌, if◌then◌else◌, Text, codes, text_eq, is_empty,
}
use agentic_mudahurus.Shared.Int.{ℤ}
use agentic_mudahurus.Schema.{
  Uuid, Time, Status, pending, payment_received, payment_accepted, shipped, expired, cancelled,
  rejected, other, Tenant, OrderRow, Order, Payment,
}
use agentic_mudahurus.World.{
  Error, Result, ok, err, Env, Action, pure, raise, lift, require, try, map_error, ◌>>=◌, ◌>>◌,
}
use agentic_mudahurus.Httpx.Errors.{bad_request}
use agentic_mudahurus.Httpx.Paging.{Page}
use agentic_mudahurus.Tenancy.Identity.{Context, tid}
use agentic_mudahurus.Auth.Store.{tenant_by_id}
use agentic_mudahurus.Storage.{Disk, Upload, Refusals, check_upload, allowed_proof_mime, put_object}
use agentic_mudahurus.Orders.Repo
use agentic_mudahurus.Orders.Service as Orders
use agentic_mudahurus.Orders.Service.{AdminInput, map_err, attach_proof_urls}
use agentic_mudahurus.Orders.Invoice.{Invoice, render_pdf}

-- A status as a client spells it.
unfoldable pub status_of : Text → Status
status_of s =
    if text_eq s (codes "pending")
    then pending
    else if text_eq s (codes "payment_received")
    then payment_received
    else if text_eq s (codes "payment_accepted")
    then payment_accepted
    else if text_eq s (codes "shipped")
    then shipped
    else if text_eq s (codes "expired")
    then expired
    else if text_eq s (codes "cancelled")
    then cancelled
    else if text_eq s (codes "rejected")
    then rejected
    else other s

pub record SellerInfo : Type 0 where
  pub full_name : Text
  pub store_name : Text

seller_of : Result Tenant → SellerInfo
seller_of (ok t) = record { full_name = t.full_name; store_name = t.store_name }
seller_of (err e) = record { full_name = []; store_name = [] }

abbrev pub invoice_of : Order → SellerInfo → Invoice
invoice_of o si = record { order = o; seller_name = si.full_name; store_name = si.store_name }

abbrev pub proof_refusals : Refusals
proof_refusals = record {
  absent = codes "missing 'proof' file";
  too_large = codes "file exceeds maximum size";
  bad_type = codes "unsupported file type: ";
}

module _ (env : Env) where
  -- `parseUUID`
  unfoldable pub parse_uuid : Text → Text → Action Uuid
  parse_uuid name param = require (env.parse_uuid param) (bad_request (codes "invalid " ++ name))

  unfoldable pub handle_list : Context → Text → Page → Action (List OrderRow × ℕ)
  handle_list ctx status p =
      Orders.list env (tid ctx) (if is_empty status then [] else status_of status ∷ []) p.search
        p.limit p.offset

  unfoldable pub handle_list_pending : Context → Page → Action (List OrderRow × ℕ)
  handle_list_pending ctx p =
      Orders.list env (tid ctx) (pending ∷ payment_received ∷ payment_accepted ∷ []) p.search
        p.limit p.offset

  unfoldable pub handle_create : Context → AdminInput → Action Order
  handle_create ctx input = Orders.create_admin env (tid ctx) input

  unfoldable pub handle_get : Context → Text → Action Order
  unfolding parse_uuid
  handle_get ctx param = do id ← parse_uuid (codes "id") param; Orders.get env (tid ctx) id

  unfoldable pub handle_update : Context → Text → AdminInput → Action Order
  unfolding parse_uuid
  handle_update ctx param input = do
    id ← parse_uuid (codes "id") param
    Orders.update_details env (tid ctx) id input

  unfoldable pub handle_set_status : Context → Text → Text → Action Order
  unfolding parse_uuid status_of
  handle_set_status ctx param status = do
    id ← parse_uuid (codes "id") param
    Orders.update_status env (tid ctx) id (status_of status)

  unfoldable pub handle_delete : Context → Text → Action (Unit {0})
  unfolding parse_uuid
  handle_delete ctx param = do id ← parse_uuid (codes "id") param; Orders.delete env (tid ctx) id

  unfoldable pub handle_verify_payment : Context → Text → Bool → Action Bool
  unfolding parse_uuid
  handle_verify_payment ctx param accept = do
    pid ← parse_uuid (codes "pid") param
    Orders.verify_payment env (tid ctx) pid accept
    pure accept

  -- `sellerLookup`
  unfoldable pub seller_lookup : Uuid → Action SellerInfo
  unfolding seller_of
  seller_lookup tenant = do t ← try (tenant_by_id env tenant); pure (seller_of t)

  unfoldable pub handle_invoice_pdf : (Time → Text) → Context → Text → Action Text
  unfolding parse_uuid seller_lookup
  handle_invoice_pdf format_time ctx param = do
    id ← parse_uuid (codes "id") param
    o ← Orders.get env (tid ctx) id
    si ← seller_lookup o.tenant_id
    pure (render_pdf env format_time (invoice_of o si))

  -- `PublicInvoice`, which answers with the PDF or with the invoice as JSON; anyone may ask
  unfoldable pub public_invoice : Text → Action Invoice
  unfolding parse_uuid seller_lookup
  public_invoice param = do
    id ← parse_uuid (codes "id") param
    o ← map_error map_err (Repo.get_by_id env id)
    payments ← attach_proof_urls env o.payments
    si ← seller_lookup o.tenant_id
    pure (invoice_of (record o { payments = payments }) si)

  -- `PublicUploadPayment`; `reason` is the text of the storage's error
  unfoldable pub public_upload_payment : Disk → Text → Text → Option Upload → Action Payment
  unfolding parse_uuid
  public_upload_payment disk reason param proof = do
    id ← parse_uuid (codes "id") param
    o ← map_error map_err (Repo.get_by_id env id)
    file ← lift (check_upload proof_refusals allowed_proof_mime proof)
    key ←
        map_error (λ e. bad_request reason)
          (put_object env disk o.tenant_id (codes "payments") file.filename file.content_type
            file.bytes)
    Orders.add_payment_proof env id key o.total_price
