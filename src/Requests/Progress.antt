-- ===== src/Requests/Progress.antt =====
-- How a seller takes an order along the transitions of api/internal/orders/repo.go.
use mathlib.Core.Option
use agentic_mudahurus.Shared.{
  find-any, ℕ, suc, ◌≡◌, refl, sym, subst, ◌∙◌, ap, true, false, some, List, [], ◌∷◌, ◌++◌, find,
  any, map, arith, none_or_some, inl, inr, update_where,
}
use agentic_mudahurus.Schema.{
  Uuid, Status, pending, payment_received, payment_accepted, shipped, expired, cancelled, rejected,
  other, OrderRow, Order, Db,
}
use agentic_mudahurus.World.{Env, World, ok, map_error, statement, affected, pure, require, ◌>>=◌}
use agentic_mudahurus.World.Preserves.{Preserves, Preserves-map_error, bind_elim}
use agentic_mudahurus.World.Inversion.{bind-returned}
use agentic_mudahurus.Orders.Status.{can_transition, status_eq, is_order_status}
use agentic_mudahurus.Orders.Status.Paths.{Reaches, here, next}
use agentic_mudahurus.Orders.Repo
use agentic_mudahurus.Orders.Repo.{is_order, with_status, items_of, payments_of, unsigned_payment}
use agentic_mudahurus.Orders.Repo.Isolation.{Preserves-get}
use agentic_mudahurus.Orders.Service.{map_err, move_status, update_status}
use agentic_mudahurus.Orders.Service.Transitions.{find-with_status}
use agentic_mudahurus.Orders.Service.Lifecycle.Rows.{status_at}
use agentic_mudahurus.Requests.{Outside, set_status, Request, seller, serve, serve_all}

moves_on :
    (s to : Status)
    → can_transition s to ≡ true
    → (status_eq s to ≡ false) × (is_order_status to ≡ true)
unfolding can_transition is_order_status status_eq
moves_on s pending h = ground arith
moves_on s payment_received h = ground arith
moves_on s payment_accepted h = ground arith
moves_on s shipped h = ground arith
moves_on s expired h = ground arith
moves_on s cancelled h = ground arith
moves_on s rejected h = ground arith
moves_on s (other x) h = ground arith

module _ (env : Env) (out : Outside) (healthy : (k : ℕ) → env.fails k ≡ false) (t id : Uuid) where
  get-answers :
      (o : OrderRow) (w : World)
      → find (is_order t id) w.db.orders ≡ some o
      → (p : Order) × (p.row ≡ o) × ((map_error map_err (Repo.get env t id) w).0 ≡ ok p)
  unfolding map_error Repo.get Repo.load_children pure require ◌>>=◌
  get-answers o w found = (
    record {
      row = o;
      items = items_of o.id w.db;
      payments = map unsigned_payment (payments_of o.id w.db);
    },
    refl,
    rw (healthy w.tick, found, healthy (suc w.tick), healthy (suc (suc w.tick))) refl,
  )

  written :
      (to : Status) (w : World)
      → any (is_order t id) w.db.orders ≡ true
      → is_order_status to ≡ true
      → ((map_error map_err (Repo.update_status env t id to) w).0 ≡ ok tt)
        × ((map_error map_err (Repo.update_status env t id to) w).1.db.orders
            ≡ update_where (is_order t id) (with_status to) w.db.orders)
  unfolding map_error Repo.update_status statement affected
  written to w there fits = rw (healthy w.tick, there, fits) (refl, refl)

  move_status-moves :
      (o : Order) (to : Status) (w : World)
      → find (is_order t id) w.db.orders ≡ some o.row
      → can_transition o.status to ≡ true
      → (move_status env t id o to w).1.db.orders
        ≡ update_where (is_order t id) (with_status to) w.db.orders
  unfolding move_status
  move_status-moves o to w found allowed =
      let (away, fits) = moves_on o.status to allowed in
      let (done, orders) = written to w (find-any (is_order t id) w.db.orders o.row found) fits in
      let write = map_error map_err (Repo.update_status env t id to) in
      rw (away, allowed)
        (ap (λ s. s.1.db.orders) (bind-returned write (λ u. Repo.get env t id) w tt done)
          ∙ (Preserves-get {P = λ db. db.orders ≡ (write w).1.db.orders} env t id).holds (write w).1
              refl
          ∙ orders)

  update_status-moves :
      (o : OrderRow) (to : Status) (w : World)
      → find (is_order t id) w.db.orders ≡ some o
      → can_transition o.status to ≡ true
      → (update_status env t id to w).1.db.orders
        ≡ update_where (is_order t id) (with_status to) w.db.orders
  unfolding update_status
  update_status-moves o to w found allowed =
      let read = map_error map_err (Repo.get env t id) in
      let (p, row, answered) = get-answers o w found in
      let same : (read w).1.db ≡ w.db = (Preserves-read {P = λ db. db ≡ w.db}).holds w refl in
      let here_too : find (is_order t id) (read w).1.db.orders ≡ some p.row =
        ap (λ (db : Db). find (is_order t id) db.orders) same ∙ found ∙ ap some (sym row) in
      ap (λ s. s.1.db.orders) (bind-returned read (λ o. move_status env t id o to) w p answered)
      ∙ move_status-moves p to (read w).1 here_too
          (subst (λ (x : OrderRow). can_transition x.status to ≡ true) (sym row) allowed)
      ∙ ap (λ (db : Db). update_where (is_order t id) (with_status to) db.orders) same
    where
      Preserves-read : {P : Db → Type 0} → Preserves P (map_error map_err (Repo.get env t id))
      Preserves-read = Preserves-map_error map_err _ (Preserves-get env t id)

  -- What a request that sets the status leaves, whatever it answers.
  request-moves :
      (s to : Status) (w : World)
      → status_at t id w.db.orders ≡ some s
      → can_transition s to ≡ true
      → status_at t id (serve env out (seller t (set_status id to)) w).1.db.orders ≡ some to
  unfolding serve pure
  request-moves s to w at_s allowed = elim (none_or_some (find (is_order t id) w.db.orders)) [
    | inl nothing ↦ absurd (cc (rw nothing at at_s))
    | inr (o, found) ↦
        let same : o.status ≡ s = cc (rw found at at_s) in
        let moved =
          update_status-moves o to w found
            (subst (λ x. can_transition x to ≡ true) (sym same) allowed) in
        let row = find-with_status t id to w.db.orders o found in
        let there : status_at t id (update_status env t id to w).1.db.orders ≡ some to =
          ap (status_at t id) moved ∙ ap (Option.map (λ o. o.status)) row in
        bind_elim (λ r. status_at t id r.1.db.orders ≡ some to) (update_status env t id to) _ w
          (λ a returned. there) (λ e failed. there)
  ]

-- The requests that take an order along a chain of transitions.
unfoldable pub requests_along : {s u : Status} → Uuid → Uuid → Reaches s u → List Request
requests_along t id here = []
requests_along t id (next {u = u} path step) =
    requests_along t id path ++ seller t (set_status id u) ∷ []

served_last :
    (env : Env) (out : Outside) (rs : List Request) (r : Request) (w : World)
    → serve_all env out (rs ++ r ∷ []) w ≡ (serve env out r (serve_all env out rs w)).1
unfolding serve_all
served_last env out [] r w = refl
served_last env out (q ∷ rs) r w = served_last env out rs r (serve env out q w).1

-- Every status that the transition table lets an order reach, its seller brings it to. If the database
-- answers, and the seller asks for the statuses of a chain of allowed transitions one after the other,
-- the order that stood at the first of them stands at the last.
pub path_served :
    (env : Env) (out : Outside) (healthy : (k : ℕ) → env.fails k ≡ false) (t id : Uuid)
    (s u : Status) (path : Reaches s u) (w : World)
    → status_at t id w.db.orders ≡ some s
    → status_at t id (serve_all env out (requests_along t id path) w).db.orders ≡ some u
unfolding requests_along serve_all
path_served env out healthy t id s u here w at_s = at_s
path_served env out healthy t id s u (next {t = v} path allowed) w at_s =
    let before = path_served env out healthy t id s v path w at_s in
    let now =
      request-moves env out healthy t id v u (serve_all env out (requests_along t id path) w) before
        allowed in
    ap (λ (x : World). status_at t id x.db.orders)
      (served_last env out (requests_along t id path) (seller t (set_status id u)) w)
    ∙ now
