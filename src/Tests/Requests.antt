-- ===== src/Tests/Requests.antt =====
-- Sequences of requests at concrete inputs.
use agentic_mudahurus.Shared.{
  ◌≡◌, ◌≢◌, refl, some, List, [], ◌∷◌, codes, true, none, text_eq, arith,
}
use agentic_mudahurus.Shared.Int.{pos}
use agentic_mudahurus.Schema.{Uuid, pending, payment_received, payment_accepted, cancelled, shipped}
use agentic_mudahurus.Orders.Service.Lifecycle.Rows.{IsLawful, status_at}
use agentic_mudahurus.Orders.Status.{can_transition}
use agentic_mudahurus.Orders.Status.Paths.{Reaches, here, next}
use agentic_mudahurus.Requests.{
  Outside, Call, delete_customer, Request, seller, upload_proof, sweep, create_order,
  create_product, set_status, run, serve_all,
}
use agentic_mudahurus.Requests.Isolation.{IsUntouched, tenant_isolation}
use agentic_mudahurus.Requests.Statuses.{statuses-IsLawful}
use agentic_mudahurus.Requests.Progress.{requests_along, path_served}
use agentic_mudahurus.Tests.Auth.{toy_crypto}
use agentic_mudahurus.Tests.Fixtures.{up, world, order_input, product_input}

abbrev outside : Outside
outside = record {
  crypto = toy_crypto;
  upper = λ s. s;
  parse_float = λ s. none;
  parse_date = λ s. none;
  parse_time = λ layout s. none;
  collates = λ s r. true;
  like = λ s pattern. text_eq s pattern;
  public_base = [];
  gateway_secret = codes "k";
}

abbrev calls : List (Uuid × Call)
calls =
    (1, create_product product_input)
    ∷ (1, delete_customer (80 ∷ []))
    ∷ (1, set_status 51 cancelled)
    ∷ []

not_two : (t : Uuid) → t ≡ 1 → 2 ≢ t
not_two t h = omega (arith, h)

tenant_isolation_example : IsUntouched 2 world.db (run up outside calls world).db
tenant_isolation_example =
    tenant_isolation up outside 2 calls world
      (not_two 1 refl, (not_two 1 refl, (not_two 1 refl, tt)))

abbrev requests : List Request
requests =
    upload_proof 50 (codes "p") (pos 2500)
    ∷ seller 1 (set_status 50 shipped)
    ∷ sweep
    ∷ seller 2 (create_order order_input)
    ∷ []

statuses-IsLawful_example : IsLawful world.db.orders (serve_all up outside requests world).db.orders
statuses-IsLawful_example =
    statuses-IsLawful up outside requests world (refl, (refl, (refl, (refl, tt))))

abbrev accepted : Reaches pending payment_accepted
unfolding can_transition
accepted = next {u = payment_accepted} (next {u = payment_received} here refl) refl

path_served_example :
    status_at 1 50 (serve_all up outside (requests_along 1 50 accepted) world).db.orders
    ≡ some payment_accepted
path_served_example =
    path_served up outside (λ k. refl) 1 50 pending payment_accepted accepted world refl
