-- ===== src/Tests/Orders.antt =====
-- Orders at concrete inputs.
use agentic_mudahurus.Shared.{
  ℕ, ◌≡◌, ◌≢◌, refl, true, List, [], ◌∷◌, map, if◌then◌else◌, All, length, select, ◌≤◌,
}
use agentic_mudahurus.Shared.Int.{pos}
use agentic_mudahurus.Shared.Float64.{Float64, add, mul, of_int, of_hundredths, to_hundredths}
use agentic_mudahurus.Schema.{
  pending, payment_received, payment_accepted, shipped, cancelled, expired, OrderRow, Order,
}
use agentic_mudahurus.World.{Error, ok, err, ◌>>=◌, limit_offset}
use agentic_mudahurus.Orders.Status.{can_transition, status_eq}
use agentic_mudahurus.Orders.Status.Paths.{
  Reaches, here, next, final_stays, Visits, shipped_after_payment,
}
use agentic_mudahurus.Orders.Repo
use agentic_mudahurus.Orders.Repo.{
  is_stale, with_status, is_payment, matching_orders, status_wanted, fill_totals,
}
use agentic_mudahurus.Orders.Repo.Creation.{IsStored, create_whole}
use agentic_mudahurus.Orders.Service.{create_admin, update_status, list, new_order}
use agentic_mudahurus.Orders.Service.Creation.{IsCreated, create_admin_outcome}
use agentic_mudahurus.Orders.Service.Transitions.{Moved, IsRefused, update_status_outcome}
use agentic_mudahurus.Orders.Service.Payments.{list_page, expire_stale_exact}
use agentic_mudahurus.Orders.Repo.Book
use agentic_mudahurus.Orders.Repo.Book.{Trace}
use agentic_mudahurus.Orders.Repo.Book.Rows.{book_of}
use agentic_mudahurus.Orders.Repo.Refinement.{perform_all, orders_book}
use agentic_mudahurus.Tests.Fixtures.{up, world, order_input, order}

paid_step : can_transition pending payment_received ≡ true
unfolding can_transition
paid_step = refl

accepted_step : can_transition payment_received payment_accepted ≡ true
unfolding can_transition
accepted_step = refl

shipped_step : can_transition payment_accepted shipped ≡ true
unfolding can_transition
shipped_step = refl

abbrev to_shipped : Reaches pending shipped
to_shipped = next (next (next here paid_step) accepted_step) shipped_step

shipped_after_payment_example :
    Visits payment_received to_shipped × Visits payment_accepted to_shipped
shipped_after_payment_example = shipped_after_payment to_shipped

final_stays_example : cancelled ≡ cancelled
final_stays_example = final_stays cancelled cancelled refl here

create_admin_outcome_example :
    ((p : Order)
      → (create_admin up 1 order_input world).0 ≡ ok p
      → IsCreated up 1 order_input world.db (create_admin up 1 order_input world).1.db p)
    × ((e : Error)
        → (create_admin up 1 order_input world).0 ≡ err e
        → (create_admin up 1 order_input world).1.db ≡ world.db)
create_admin_outcome_example = create_admin_outcome up 1 order_input world

create_whole_example :
    ((p : Order)
      → (Repo.create up (new_order 1 order_input) [] world).0 ≡ ok p
      → IsStored
          (new_order 1 order_input)
          []
          world.db
          (Repo.create up (new_order 1 order_input) [] world).1.db
          p)
    × ((e : Error)
        → (Repo.create up (new_order 1 order_input) [] world).0 ≡ err e
        → (Repo.create up (new_order 1 order_input) [] world).1.db ≡ world.db)
create_whole_example = create_whole up (new_order 1 order_input) [] world

update_status_outcome_example :
    ((p : Order)
      → (update_status up 1 50 cancelled world).0 ≡ ok p
      → Moved 1 50 cancelled world.db.orders (update_status up 1 50 cancelled world).1.db.orders p)
    × ((o : OrderRow)
        → IsRefused 1 50 cancelled world.db.orders o
        → ((p : Order) → (update_status up 1 50 cancelled world).0 ≢ ok p)
          × ((update_status up 1 50 cancelled world).1.db ≡ world.db))
update_status_outcome_example = update_status_outcome up 1 50 cancelled world

stale_sweep : (Repo.expire_stale up world).0 ≡ ok 2
unfolding Repo.expire_stale ◌>>=◌ status_eq
stale_sweep = refl

listed : (list up 1 [] [] (pos 20) (pos 0) world).0 ≡ ok (order 50 1 ∷ [], 1)
unfolding list Repo.list ◌>>=◌ limit_offset
listed = refl

list_page_example :
    All (λ o. (o.tenant_id ≡ 1) × (status_wanted [] o.status ≡ true)) (order 50 1 ∷ [])
    × (length (order 50 1 ∷ []) ≤ 20)
    × (1 ≡ length (matching_orders up 1 [] [] world.db))
list_page_example = list_page up 1 [] [] (pos 20) (pos 0) world (order 50 1 ∷ []) 1 listed

expire_stale_exact_example :
    (2 ≡ length (select (is_stale (up.now 0)) world.db.orders))
    × ((Repo.expire_stale up world).1.db.orders
        ≡ map (λ o. if is_stale (up.now 0) o then with_status expired o else o) world.db.orders)
    × (select (is_stale (up.now 0)) (Repo.expire_stale up world).1.db.orders ≡ [])
expire_stale_exact_example = expire_stale_exact up world 2 stale_sweep

abbrev book_calls : List Book.Call
book_calls =
    Book.create (new_order 1 order_input) []
    ∷ Book.update_status 1 50 cancelled
    ∷ Book.delete 2 50
    ∷ Book.get 2 51
    ∷ []

orders_book_example :
    Trace book_calls
      (book_of world.db)
      (perform_all up book_calls world).0
      (book_of (perform_all up book_calls world).1.db)
orders_book_example = orders_book up book_calls world

-- ---- amounts ----

-- The line total and the sum that the code computes on float64s are stored as the exact ones.
abbrev float_line : ℕ → ℕ → Float64
float_line quantity price = mul (of_int quantity) (of_hundredths price)

line_stored : to_hundredths (float_line 3 1999) ≡ 5997
unfolding mul of_int of_hundredths
line_stored = refl

line_stored_large : to_hundredths (float_line 7 142857142857) ≡ 999999999999
unfolding mul of_int of_hundredths
line_stored_large = refl

sum_stored : to_hundredths (add (add (float_line 1 10) (float_line 1 20)) (float_line 3 33)) ≡ 129
unfolding add mul of_int of_hundredths
sum_stored = refl
