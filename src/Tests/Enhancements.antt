-- ===== src/Tests/Enhancements.antt =====
-- The enhancements at concrete inputs.
use agentic_mudahurus.Shared.{
  ℕ, suc, ◌+◌, ◌*◌, ◌≤◌, ◌<◌, ◌≡◌, ◌≢◌, refl, true, false, Bool, Option, none, some, List, [], ◌∷◌,
  ◌++◌, map, select, Text, codes, text_eq, inl, arith, is_empty, length,
}
use agentic_mudahurus.Shared.Int.{ℤ, pos}
use agentic_mudahurus.Schema.{Time, shipped, Order}
use mathlib.Core.List.{Perm}
use mathlib.Core.List.Perm
use agentic_mudahurus.World.{World, Message, ok, err, ◌>>=◌}
use agentic_mudahurus.Tenancy.{SameFor}
use agentic_mudahurus.Tenancy.Identity.{Context, tid}
use agentic_mudahurus.Orders.Repo
use agentic_mudahurus.Enhancements.Router.{
  storefront_assistant, AgentRequest, ProposedAction, route,
}
use agentic_mudahurus.Enhancements.Chase.{decide_chase, has_payment, is_due, run_chase_sweep}
use agentic_mudahurus.Enhancements.Chase.Agreement.{chased, where_clause_decides, sweep_reminds}
use agentic_mudahurus.Enhancements.Chase.Agreement as Agreement
use agentic_mudahurus.Enhancements.Trends.{SalesPoint, is_sale, fell, rose, analytics_insights}
use agentic_mudahurus.Enhancements.Trends.Revenue.{IsSeries, total_in, sales_in, insights_account}
use agentic_mudahurus.Enhancements.Payments.{convert, Callback, payment_webhook}
use agentic_mudahurus.Enhancements.Payments.Webhook.{settled, payment_webhook_outcome}
use agentic_mudahurus.Enhancements.Payments.Webhook as Webhook
use agentic_mudahurus.Enhancements.Copilot.{derive_sku, copilot_execute}
use agentic_mudahurus.Enhancements.Copilot.Execution.{copilot_isolated}
use agentic_mudahurus.Tests.Fixtures.{up, world, order, payment}

abbrev aminah : Context
aminah = some (record { tenant_id = 1; role = codes "seller"; username = codes "aminah" })

abbrev month_of : Time → Text
month_of t = codes "2024-01"

abbrev no_number : Text → Option ℤ
no_number s = none

-- ---- chasing ----

where_clause_decides_example :
    is_due 500 world.db (order 51 2)
    ≡ (decide_chase
        (codes "51")
        (order 51 2).status
        (order 51 2).expired_date
        (has_payment world.db (order 51 2))
        500).should_chase
where_clause_decides_example = where_clause_decides 500 world.db (order 51 2) (codes "51")

abbrev soon : World
soon = record world {
  db = record world.db { orders = record (order 51 2) { expired_date = 1000500 } ∷ [] };
}

sweep_reminds_example :
    (ms : List Message) × Perm ms (
      map
        (Agreement.mail up (λ t. codes "soon"))
        (select (chased up 1000000 soon.db) soon.db.orders))
    × ((run_chase_sweep up (λ t. codes "soon") (λ os. os) soon).1
        ≡ record soon { tick = 1; mails = ms })
sweep_reminds_example =
    sweep_reminds up (λ t. codes "soon") (λ os. os) (λ os. Perm.refl os) soon refl

-- ---- insights ----

abbrev sold : World
sold = record world {
  db = record world.db { orders = record (order 50 1) { status = shipped } ∷ order 51 2 ∷ [] };
}

abbrev points : List SalesPoint
points = record { period = codes "2024-01"; total = pos 2500 } ∷ []

insights_account_example :
    IsSeries points
    × ((month : Text)
        → total_in month points
          ≡ sales_in month_of month (select (is_sale (tid aminah)) sold.db.orders))
unfolding analytics_insights ◌>>=◌ tid agentic_mudahurus.Orders.Status.status_eq
insights_account_example = insights_account up month_of aminah sold points [] refl

-- From 100.05 to 80.04 is a fifth less, but the quotient of the float64s is not.
just_not_fallen : fell (pos 10005) (pos 8004) ≡ false
unfolding fell
just_not_fallen = refl

fallen : fell (pos 10000) (pos 8000) ≡ true
unfolding fell
fallen = refl

risen : rose (pos 10000) (pos 12000) ≡ true
unfolding rose
risen = refl

-- ---- payments ----

converted :
    convert (λ s. s) (record { amount = 1001; currency = codes "MYR" }) (codes "SGD")
    ≡ record { amount = 300; currency = codes "SGD" }
unfolding convert text_eq
converted = refl

-- From 2^53 on a float64 has no odd numbers: the exact amount would be 9007199254740993.
converted_large :
    convert (λ s. s) (record { amount = 30023997515803309; currency = codes "MYR" }) (codes "SGD")
    ≡ record { amount = 9007199254740992; currency = codes "SGD" }
unfolding convert text_eq
converted_large = refl

abbrev paid : Callback
paid = record {
  signature = codes "k";
  order_id = 50 ∷ [];
  payment_id = 60 ∷ [];
  status = codes "paid";
}

abbrev bought : Order
bought = record {
  row = order 50 1;
  items = [];
  payments = record { row = payment; proof_url = [] } ∷ [];
}

payment_webhook_outcome_example : payment_webhook up (codes "k") paid world ≡ (
  ok tt,
  record world {
    tick = 5;
    db = settled bought 50 60 world.db;
    mails = Webhook.mail up bought ∷ [];
  },
)
unfolding text_eq Repo.get_by_id ◌>>=◌
payment_webhook_outcome_example =
    (payment_webhook_outcome up (λ k. refl) (codes "k") paid world).1 50 60 bought refl refl refl
      refl refl

-- ---- the copilot ----

abbrev teh : ProposedAction
teh = record {
  kind = codes "create_product";
  target = [];
  params = (codes "product_name", codes "Teh Tarik") ∷ (codes "category", codes "Minuman") ∷ [];
}

copilot_isolated_example :
    SameFor 2 world.db (copilot_execute up (λ s. s) no_number text_eq text_eq aminah teh world).1.db
unfolding tid
copilot_isolated_example =
    copilot_isolated up (λ s. s) no_number text_eq text_eq aminah teh 2 world (omega arith)

derived : (derive_sku up (λ s. s) (codes "TEH 1") world).0 ≡ ok (codes "TEH1-" ++ 1000 ∷ [])
unfolding derive_sku ◌>>=◌ agentic_mudahurus.World.new_uuid agentic_mudahurus.Shared.trim_space
    agentic_mudahurus.Shared.trim_left
derived = refl

-- A seller's wish to ship an order is not routed to the copilot.
abbrev wish : AgentRequest
wish = record {
  tenant_id = codes "1";
  role = codes "seller";
  scope = [];
  message = codes "ship order 1a2b3c";
}

wish_to_ship : route (λ c. c) wish ≡ storefront_assistant
unfolding route text_eq agentic_mudahurus.Shared.contains agentic_mudahurus.Shared.to_lower
wish_to_ship = refl
