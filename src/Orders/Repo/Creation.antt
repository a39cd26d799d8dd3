-- ===== src/Orders/Repo/Creation.antt =====
-- What `Create` stores: all of an order or nothing of it.
use agentic_mudahurus.Shared.{
  ◌≡◌, refl, sym, subst, ◌∙◌, ap, List, [], ◌∷◌, ◌++◌, map, append_assoc, append-nil, arith, All,
  any, false, ◌==◌,
}
use agentic_mudahurus.Shared.Int.{ℤ, pos, ◌+ℤ◌, ◌*ℤ◌, +ℤ_assoc, +ℤ-pos_zero, pos_zero-+ℤ}
use agentic_mudahurus.Schema.{Uuid, Time, OrderRow, OrderItem, Order, Db}
use agentic_mudahurus.World.{Env, World, Error, ok, err, pure, statement, inserted, ◌>>=◌, time_now}
use agentic_mudahurus.World.Inversion.{bind-ok, transaction_outcome, transaction_failed}
use agentic_mudahurus.Orders.Repo.{
  fill_totals, sum_totals, expiry, insert_order, order_fits, insert_item, insert_items, priced,
  create_body, create,
}

-- Σ quantity · unit price
unfoldable pub line_sum : List OrderItem → ℤ
line_sum [] = pos 0
line_sum (i ∷ is) = i.quantity *ℤ i.unit_price +ℤ line_sum is

sum_totals-acc :
    (acc : ℤ) (is : List OrderItem) → sum_totals acc (fill_totals is) ≡ acc +ℤ line_sum is
unfolding sum_totals fill_totals line_sum
sum_totals-acc acc [] = sym (+ℤ-pos_zero acc)
sum_totals-acc acc (i ∷ is) =
    sum_totals-acc (acc +ℤ i.quantity *ℤ i.unit_price) is ∙ +ℤ_assoc acc _ (line_sum is)

pub sum_totals-line_sum : (is : List OrderItem) → sum_totals (pos 0) (fill_totals is) ≡ line_sum is
sum_totals-line_sum is = sum_totals-acc (pos 0) is ∙ pos_zero-+ℤ (line_sum is)

-- An item without the ids that the database gives it.
abbrev pub content : OrderItem → OrderItem
content i = record i { id = 0; order_id = 0 }

-- The tables `db` with an order and its items behind the rows there were.
abbrev pub with_order : OrderRow → List OrderItem → Db → Db
with_order row stored db = record db {
  orders = db.orders ++ row ∷ [];
  order_items = db.order_items ++ stored;
}

insert_item-ok :
    (env : Env) (order : Uuid) (i : OrderItem) (w : World) (j : OrderItem)
    → (insert_item env order i w).0 ≡ ok j
    → (j.order_id ≡ order)
      × (content j ≡ content i)
      × ((insert_item env order i w).1.db
          ≡ record w.db { order_items = w.db.order_items ++ j ∷ [] })
unfolding insert_item inserted statement
insert_item-ok env order i w j h = ground arith

pub insert_items-ok :
    (env : Env) (order : Uuid) (is : List OrderItem) (w : World) (js : List OrderItem)
    → (insert_items env order is w).0 ≡ ok js
    → All (λ j. j.order_id ≡ order) js
      × (map content js ≡ map content is)
      × ((insert_items env order is w).1.db ≡ record w.db { order_items = w.db.order_items ++ js })
unfolding insert_items pure
insert_items-ok env order [] w js h =
    let same : [] ≡ js = cc in rw (sym same) (tt, refl, rw (append-nil w.db.order_items) refl)
insert_items-ok env order (i ∷ is) w js h =
    let (j, ej, e) = bind-ok (insert_item env order i) _ w js h in
    let w2 = (insert_item env order i w).1 in
    let (rest, er, e2) =
      bind-ok (insert_items env order is) (λ rest. pure (j ∷ rest)) w2 js
        (sym (ap (λ s. s.0) e) ∙ h) in
    let (owned, same, stored) = insert_items-ok env order is w2 rest er in
    let (owned_j, same_j, stored_j) = insert_item-ok env order i w j ej in
    let all : j ∷ rest ≡ js = cc (ap (λ s. s.0) (e ∙ e2), h) in
    let db =
      ap (λ s. s.1.db) (e ∙ e2)
      ∙ stored
      ∙ ap (λ (d : Db). record d { order_items = d.order_items ++ rest }) stored_j
      ∙ ap (λ rows. record w.db { order_items = rows })
          (append_assoc w.db.order_items (j ∷ []) rest) in
    rw (sym all) ((owned_j, owned), cc (same, same_j), db)

-- A row without what the database draws for it.
abbrev pub draft : OrderRow → OrderRow
draft o = record o { id = 0; created_at = 0 }

-- `p` is stored whole in `db`, behind what `before` held and under a new id: its row as asked for and with a total and a
-- date, and each of its items, with their totals, under its id.
pub record IsStored (o : OrderRow) (items : List OrderItem) (before db : Db) (p : Order)
    : Type 0 where
  pub fresh : any (λ x. x.id == p.row.id) before.orders ≡ false
  pub row : draft p.row ≡ draft (priced o (fill_totals items) p.row.expired_date)
  pub linked : All (λ i. i.order_id ≡ p.row.id) p.items
  pub lines : map content p.items ≡ map content (fill_totals items)
  pub tables : db ≡ with_order p.row p.items before

expiry-ok :
    (env : Env) (d : Time) (w : World) (date : Time)
    → (expiry env d w).0 ≡ ok date
    → (expiry env d w).1.db ≡ w.db
unfolding expiry ◌>>=◌ time_now
expiry-ok env d w date h = ground arith

insert_order-ok :
    (env : Env) (o : OrderRow) (w : World) (row : OrderRow)
    → (insert_order env o w).0 ≡ ok row
    → (draft row ≡ draft o)
      × (any (λ x. x.id == row.id) w.db.orders ≡ false)
      × ((insert_order env o w).1.db ≡ record w.db { orders = w.db.orders ++ row ∷ [] })
unfolding insert_order inserted statement order_fits
insert_order-ok env o w row h = ground arith

create_body-ok :
    (env : Env) (o : OrderRow) (items : List OrderItem) (w : World) (p : Order)
    → (create_body env o items w).0 ≡ ok p
    → IsStored o items w.db (create_body env o items w).1.db p
unfolding pure
create_body-ok env o items w p h =
    let (date, ed, e) = bind-ok (expiry env o.expired_date) _ w p h in
    let w1 = (expiry env o.expired_date w).1 in
    let full = priced o (fill_totals items) date in
    let (row, er, e2) = bind-ok (insert_order env full) _ w1 p (sym (ap (λ s. s.0) e) ∙ h) in
    let w2 = (insert_order env full w1).1 in
    let (stored, es, e3) =
      bind-ok (insert_items env row.id (fill_totals items))
        (λ stored. pure (record { row = row; items = stored; payments = [] })) w2 p
        (sym (ap (λ s. s.0) (e ∙ e2)) ∙ h) in
    let same : (record { row = row; items = stored; payments = [] } ≡ p) =
      cc (ap (λ s. s.0) (e ∙ e2 ∙ e3), h) in
    let (drafted, fresh, row_stored) = insert_order-ok env full w1 row er in
    let (linked, lines, items_stored) =
      insert_items-ok env row.id (fill_totals items) w2 stored es in
    let date_kept = expiry-ok env o.expired_date w date ed in
    subst (IsStored o items w.db (create_body env o items w).1.db) same (record {
      fresh = subst (λ (d : Db). any (λ x. x.id == row.id) d.orders ≡ false) date_kept fresh;
      row =
          drafted
          ∙ ap (λ d. draft (priced o (fill_totals items) d))
              (sym (ap (λ r. r.expired_date) drafted));
      linked = linked;
      lines = lines;
      tables =
          ap (λ s. s.1.db) (e ∙ e2 ∙ e3)
          ∙ items_stored
          ∙ ap (λ (d : Db). record d { order_items = d.order_items ++ stored }) row_stored
          ∙ ap (λ (d : Db). with_order row stored d) date_kept;
    })

-- An order is stored whole or not at all: if `create` returns an order, the tables hold it with every
-- item behind what they held before; if it returns an error, the tables are what they were.
pub create_whole :
    (env : Env) (o : OrderRow) (items : List OrderItem) (w : World)
    → ((p : Order)
        → (create env o items w).0 ≡ ok p
        → IsStored o items w.db (create env o items w).1.db p)
      × ((e : Error) → (create env o items w).0 ≡ err e → (create env o items w).1.db ≡ w.db)
unfolding create
create_whole env o items w = (
  λ p h.
      let (v, same, returned, left) = transaction_outcome env (create_body env o items) w p h in
      let stored = create_body-ok env o items v p returned in
      subst (λ db. IsStored o items db (create env o items w).1.db p) same
        (subst (λ db. IsStored o items v.db db p) (sym left) stored),
  λ e h. transaction_failed env (create_body env o items) w e h,
)
