-- ===== src/Orders/Service/Payments.antt =====
-- What the sweep of stale orders and the lists of orders come to.
use agentic_mudahurus.Shared.{
  ℕ, ◌≡◌, refl, sym, subst, ◌∙◌, true, List, [], ◌∷◌, if◌then◌else◌, arith, All, All-take, All-drop,
  All-order_by, All-select, length, length-take, length-order_by, drop, select, update_where,
  update_where-map, map, Text, ◌≤◌,
}
use agentic_mudahurus.Shared.Int.{ℤ, pos_part}
use agentic_mudahurus.Schema.{Uuid, Time, Status, expired, OrderRow}
use agentic_mudahurus.World.{Env, World, ok, statement, limit_offset, ◌>>=◌}
use agentic_mudahurus.World.Inversion.{limit_offset-ok}
use agentic_mudahurus.Orders.Status.{status_eq}
use agentic_mudahurus.Orders.Repo
use agentic_mudahurus.Orders.Repo.{
  is_order, is_payment, with_payment_status, with_status, is_stale, matching_orders, order_matches,
  order_newer, status_wanted,
}
use agentic_mudahurus.Orders.Service.{list}

-- ---- ListOrders ----

repo_list-ok :
    (env : Env) (t : Uuid) (statuses : List Status) (words : Text) (limit offset : ℤ) (w : World)
    (rows : List OrderRow) (total : ℕ)
    → (Repo.list env t statuses words limit offset w).0 ≡ ok (rows, total)
    → (limit_offset limit offset (matching_orders env t statuses words w.db) ≡ ok rows)
      × (total ≡ length (select (order_matches env t statuses words) w.db.orders))
unfolding Repo.list ◌>>=◌
repo_list-ok env t statuses words limit offset w rows total h = ground arith

matches-wanted :
    (env : Env) (t : Uuid) (statuses : List Status) (words : Text) (o : OrderRow)
    → order_matches env t statuses words o ≡ true
    → (o.tenant_id ≡ t) × (status_wanted statuses o.status ≡ true)
matches-wanted env t statuses words o h = (ground arith, ground arith)

-- Every row that the listing query returns belongs to the tenant and has one of the statuses asked for,
-- if there are any; there are at most `limit` of them; and the total counts all rows that match.
pub list_page :
    (env : Env) (t : Uuid) (statuses : List Status) (words : Text) (limit offset : ℤ) (w : World)
    (rows : List OrderRow) (total : ℕ)
    → (list env t statuses words limit offset w).0 ≡ ok (rows, total)
    → All (λ o. (o.tenant_id ≡ t) × (status_wanted statuses o.status ≡ true)) rows
      × (length rows ≤ pos_part limit)
      × (total ≡ length (matching_orders env t statuses words w.db))
unfolding list
list_page env t statuses words limit offset w rows total h =
    let (shown, counted) = repo_list-ok env t statuses words limit offset w rows total h in
    let matching = matching_orders env t statuses words w.db in
    let (_, page) = limit_offset-ok limit offset matching rows shown in
    let wanted =
      All-order_by Wanted order_newer (select (order_matches env t statuses words) w.db.orders) (
        All-select Wanted (order_matches env t statuses words) w.db.orders
          (λ o. matches-wanted env t statuses words o)) in
    (
      subst (All Wanted) page
          (All-take Wanted (pos_part limit) _ (All-drop Wanted (pos_part offset) matching wanted)),
      rw (sym page) (omega (arith, length-take (pos_part limit) (drop (pos_part offset) matching))),
      counted
          ∙ sym (
              length-order_by order_newer
                (select (order_matches env t statuses words) w.db.orders)),
    )
  where
    Wanted : OrderRow → Type 0
    Wanted o = (o.tenant_id ≡ t) × (status_wanted statuses o.status ≡ true)

-- ---- ExpireStale ----

select-expired :
    (now : Time) (os : List OrderRow)
    → select (is_stale now) (update_where (is_stale now) (with_status expired) os) ≡ []
unfolding status_eq
select-expired now [] = refl
select-expired now (o ∷ os) = ground (arith, select-expired now os)

repo_expire_stale-ok :
    (env : Env) (w : World) (n : ℕ)
    → (Repo.expire_stale env w).0 ≡ ok n
    → (n ≡ length (select (is_stale (env.now w.tick)) w.db.orders))
      × ((Repo.expire_stale env w).1.db.orders
          ≡ update_where (is_stale (env.now w.tick)) (with_status expired) w.db.orders)
unfolding Repo.expire_stale statement
repo_expire_stale-ok env w n h = ground arith

-- The sweep. If it returns a number, that many orders were pending and past their date; those orders
-- are now expired, every other order is as it was, and no order is pending and past that date.
pub expire_stale_exact :
    (env : Env) (w : World) (n : ℕ)
    → (Repo.expire_stale env w).0 ≡ ok n
    → (n ≡ length (select (is_stale (env.now w.tick)) w.db.orders))
      × ((Repo.expire_stale env w).1.db.orders
          ≡ map (λ o. if is_stale (env.now w.tick) o then with_status expired o else o) w.db.orders)
      × (select (is_stale (env.now w.tick)) (Repo.expire_stale env w).1.db.orders ≡ [])
expire_stale_exact env w n h =
    let (count, orders) = repo_expire_stale-ok env w n h in
    (
      count,
      orders ∙ update_where-map (is_stale (env.now w.tick)) (with_status expired) w.db.orders,
      rw orders (select-expired (env.now w.tick) w.db.orders),
    )
