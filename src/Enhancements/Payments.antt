-- ===== src/Enhancements/Payments.antt =====
-- api/internal/enhancements/eh6_payments.go, and the handlers of module.go that charge an order and take the
-- gateway's callback. strings.ToUpper is an argument. Prices are whole sen, of which the code has the
-- nearest float64; a product and a sum are not fused, as on amd64.
pub mod Webhook
use agentic_mudahurus.Shared.{
  ℕ, ◌+◌, ◌*◌, ◌/◌, Bool, true, false, Option, none, some, List, [], ◌∷◌, ◌++◌, not, ◌&&◌, ◌||◌,
  if◌then◌else◌, take, Text, codes, text_eq, is_empty,
}
use agentic_mudahurus.Shared.Int.{ℤ, pos_part}
use agentic_mudahurus.Shared.Float64.{of_int, of_hundredths, round_ratio, add, mul, div, truncated}
use agentic_mudahurus.Schema.{Uuid, Order, payment_accepted, verified, Payment}
use agentic_mudahurus.World.{
  Error, Result, ok, err, Env, Action, pure, raise, require, try, map_error, new_uuid, ◌>>=◌, ◌>>◌,
}
use agentic_mudahurus.Httpx.Errors.{bad_request, unauthorized, missing}
use agentic_mudahurus.Tenancy.Identity.{Context, tid}
use agentic_mudahurus.Orders.Repo
use agentic_mudahurus.Orders.Service as Orders
use agentic_mudahurus.Orders.Invoice.{amount}
use agentic_mudahurus.Enhancements.Notify.{Notification, notify_email}

-- The amount, an int64, is in minor units; no price is negative.
pub record Money : Type 0 where
  pub amount : ℕ
  pub currency : Text

-- `SupportedCurrencies`
abbrev pub supported_currencies : List Text
supported_currencies = codes "MYR" ∷ codes "SGD" ∷ codes "USD" ∷ []

-- `fxFromMYR`, in hundredths
unfoldable pub rate_of : Text → Option ℕ
rate_of currency =
    if text_eq currency (codes "MYR")
    then some 100
    else if text_eq currency (codes "SGD")
    then some 30
    else if text_eq currency (codes "USD")
    then some 22
    else none

-- int64(float64(amount) / from * to + 0.5), with the rates in hundredths
unfoldable pub rounded : (amount from to : ℕ) → ℕ
unfolding of_int of_hundredths round_ratio add mul div
rounded amount from to =
    let myr = div (of_int amount) (of_hundredths from) in
    let converted = mul myr (of_hundredths to) in truncated (add converted (of_hundredths 50))

exchanged : Money → Text → Option ℕ → Option ℕ → Money
exchanged m to (some from) (some rate) = record {
  amount = rounded m.amount from rate;
  currency = to;
}
exchanged m to _ _ = record { amount = m.amount; currency = to }

module _ (upper : Text → Text) where
  -- `Convert`
  unfoldable pub convert : Money → Text → Money
  unfolding exchanged rate_of rounded
  convert m currency =
      let to = upper currency in
      let from = upper m.currency in
      if text_eq from to then m else exchanged m to (rate_of from) (rate_of to)

pub record ChargeResult : Type 0 where
  pub gateway_ref : Text
  pub status : Text
  pub redirect_url : Text

-- `MockGateway.CreateCharge`, with the base URL and the order's id
unfoldable pub create_charge : Env → Text → Text → Action ChargeResult
create_charge env base_url order_id = do
  id ← new_uuid env
  let ref = codes "mock_" ++ env.uuid_string id
  pure (record {
    gateway_ref = ref;
    status = codes "pending";
    redirect_url = base_url ++ codes "/pay/mock/" ++ ref ++ codes "?order=" ++ order_id;
  })

pub record Charged : Type 0 where
  pub gateway_ref : Text
  pub status : Text
  pub payment_id : Uuid
  pub amount : Money
  pub redirect_url : Text

abbrev or_myr : Text → Text
or_myr currency = if is_empty currency then codes "MYR" else currency

module _ (env : Env) (upper : Text → Text) (public_base : Text) where
  -- Money{Amount: int64(o.TotalPrice*100 + 0.5), Currency: "MYR"}
  unfoldable pub total_of : Order → Money
  unfolding of_int of_hundredths round_ratio add mul
  total_of o =
      let price = of_hundredths (pos_part o.total_price) in
      let total = truncated (add (mul price (of_int 100)) (of_hundredths 50)) in
      record { amount = total; currency = codes "MYR" }

  -- `charge`, with the path and the query parameter `currency`
  unfoldable pub charge : Context → Text → Text → Action Charged
  unfolding convert create_charge total_of
  charge ctx param currency = do
    oid ← require (env.parse_uuid param) (bad_request (codes "invalid order id"))
    o ← Orders.get env (tid ctx) oid
    res ← create_charge env public_base (env.uuid_string oid)
    pay ← Repo.add_payment env oid [] o.total_price
    pure (record {
      gateway_ref = res.gateway_ref;
      status = res.status;
      payment_id = pay.id;
      amount = convert upper (total_of o) (or_myr (upper currency));
      redirect_url =
          public_base
          ++ codes "/api/pay/mock/"
          ++ res.gateway_ref
          ++ codes "?order="
          ++ env.uuid_string oid
          ++ codes "&payment="
          ++ env.uuid_string pay.id;
    })

-- ---- the callback ----

pub record Callback : Type 0 where
  pub signature : Text
  pub order_id : Text
  pub payment_id : Text
  pub status : Text

module _ (env : Env) where
  abbrev pub confirmation : Order → Notification
  confirmation o = record {
    channel = codes "email";
    recipient = o.email;
    template = codes "order_confirmed";
    vars =
        (codes "order_id", take 8 (env.uuid_string o.id))
        ∷ (codes "total", amount o.total_price)
        ∷ [];
  }

  -- once the callback says `paid`: the errors of the three steps are dropped
  unfoldable pub settle : Uuid → Uuid → Order → Action (Unit {0})
  settle oid pid o = do
    first ← try (Repo.set_payment_status env o.tenant_id pid verified)
    second ← try (Repo.update_status env o.tenant_id oid payment_accepted)
    third ← try (notify_email (confirmation o))
    pure tt

  -- MH_GATEWAY_SECRET, empty if it is not set, against the header of the request
  abbrev pub signed : Text → Callback → Bool
  signed secret call = is_empty secret || text_eq call.signature secret

  -- `paymentWebhook`, which anyone may call
  unfoldable pub payment_webhook : Text → Callback → Action (Unit {0})
  unfolding settle
  payment_webhook secret call = do
    if signed secret call then pure tt else raise (unauthorized (codes "invalid gateway signature"))
    oid ← require (env.parse_uuid call.order_id) (bad_request (codes "invalid order_id"))
    pid ← require (env.parse_uuid call.payment_id) (bad_request (codes "invalid payment_id"))
    o ← map_error (λ e. missing (codes "order not found")) (Repo.get_by_id env oid)
    if text_eq call.status (codes "paid") then settle oid pid o else pure tt
