-- ===== src/Orders/Service/Lifecycle/Proof.antt =====
-- The upload of a payment proof moves the order along an allowed transition, or not at all.
use agentic_mudahurus.Shared.{
  ◌≡◌, refl, ap, ◌∙◌, true, some, List, [], ◌∷◌, ◌==◌, inl, inr, Bool-cases, find, Text, arith,
  subst, sym,
}
use agentic_mudahurus.Shared.Int.{ℤ}
use agentic_mudahurus.Schema.{Uuid, pending, payment_received, OrderRow, Order, Payment, Db}
use agentic_mudahurus.World.{
  Env, World, pure, map_error, emit, payment_uploaded, Event, ◌>>=◌, ◌>>◌,
}
use agentic_mudahurus.World.Inversion.{map_error-ok}
use agentic_mudahurus.World.Preserves.{
  Preserves, Preserves-statement, Preserves-map_error, Preserves-bind, Preserves-emit,
  Preserves-pure, bind_elim, inserted_keeps,
}
use agentic_mudahurus.Orders.Status.{can_transition, status_eq, status_eq_sound}
use agentic_mudahurus.Orders.Status.Paths.{Reaches, here, next}
use agentic_mudahurus.Orders.Repo
use agentic_mudahurus.Orders.Repo.{is_order}
use agentic_mudahurus.Orders.Repo.Queries.{get_by_id-found}
use agentic_mudahurus.Orders.Repo.Isolation.{Preserves-get_by_id}
use agentic_mudahurus.Orders.Service.{map_err, advance_pending, add_payment_proof}
use agentic_mudahurus.Orders.Service.Lifecycle.{Lawful, update_status-row-Lawful}

-- The first order with an id is the first with that id and its own tenant.
pub find-own_tenant :
    (id : Uuid) (os : List OrderRow) (o : OrderRow)
    → find (λ p. p.id == id) os ≡ some o
    → find (is_order o.tenant_id id) os ≡ some o
find-own_tenant id [] o e = cc
find-own_tenant id (p ∷ ps) o e = ground (arith, find-own_tenant id ps o)

received_step : can_transition pending payment_received ≡ true
unfolding can_transition
received_step = refl

module _ (before : List OrderRow) (env : Env) where
  -- What is known between the read of the order and the write of its status.
  abbrev Read : Uuid → OrderRow → Db → Type 0
  Read order o db = Lawful before db × (find (is_order o.tenant_id order) db.orders ≡ some o)

  add_payment-Read :
      (order : Uuid) (o : OrderRow) (key : Text) (amount : ℤ)
      → Preserves (Read order o) (Repo.add_payment env order key amount)
  unfolding Repo.add_payment
  add_payment-Read order o key amount =
      Preserves-statement env _ λ k db h. inserted_keeps (Read order o) _ _ _ db h λ fits. h

  advance_pending-Lawful :
      (order : Uuid) (o : Order) (w : World)
      → Read order o.row w.db
      → Lawful before (advance_pending env o order w).1.db
  unfolding advance_pending
  advance_pending-Lawful order o w h = elim (Bool-cases (status_eq o.status pending)) [
    | inl waiting ↦
        let is_pending = status_eq_sound o.status pending waiting in
        let r : Reaches o.row.status payment_received =
          subst (λ v. Reaches v payment_received) (sym is_pending) (next here received_step) in
        rw waiting (
          unfold ◌>>=◌ in
          update_status-row-Lawful before env o.tenant_id order o.row payment_received r w h.0 h.1)
    | inr moved ↦ rw moved (unfold pure in h.0)
  ]

  finish-Lawful : (e : Event) (p : Payment) → Preserves (Lawful before) (emit e >> pure p)
  finish-Lawful e p = Preserves-bind _ _ (Preserves-emit e) (λ _. Preserves-pure p)

  rest-Lawful :
      (order : Uuid) (o : Order) (key : Text) (amount : ℤ) (w : World)
      → Read order o.row w.db
      → Lawful before
          ((do
            p ← Repo.add_payment env order key amount
            advance_pending env o order
            emit (record { type = payment_uploaded; tenant_id = o.tenant_id; source_id = order })
            pure p)
            w).1.db
  rest-Lawful order o key amount w h =
      let added = (add_payment-Read order o.row key amount).holds w h in
      bind_elim (λ s. Lawful before s.1.db) (Repo.add_payment env order key amount) _ w
        (λ p _.
          let advanced = advance_pending-Lawful order o _ added in
          bind_elim (λ s. Lawful before s.1.db) (advance_pending env o order) _ _
            (λ _ _.
              (finish-Lawful
                  (record { type = payment_uploaded; tenant_id = o.tenant_id; source_id = order })
                  p).holds
                (advance_pending env o order (Repo.add_payment env order key amount w).1).1
                advanced)
            (λ _ _. advanced))
        (λ _ _. added.0)

  pub add_payment_proof-Lawful :
      (order : Uuid) (key : Text) (amount : ℤ)
      → Preserves (Lawful before) (add_payment_proof env order key amount)
  unfolding add_payment_proof
  add_payment_proof-Lawful order key amount = record {
    holds = λ w h.
        let read : Preserves (λ db. db ≡ w.db) (map_error map_err (Repo.get_by_id env order)) =
          Preserves-map_error map_err _ (Preserves-get_by_id env order) in
        let same = read.holds w refl in
        let still : Lawful before (map_error map_err (Repo.get_by_id env order) w).1.db =
          subst (Lawful before) (sym same) h in
        bind_elim (λ s. Lawful before s.1.db) (map_error map_err (Repo.get_by_id env order)) _ w
          (λ o e.
            let found =
              get_by_id-found env order w o
                (map_error-ok map_err (Repo.get_by_id env order) w o e) in
            let own = find-own_tenant order w.db.orders o.row found in
            rest-Lawful order o key amount _
              (still, ap (λ (db : Db). find (is_order o.tenant_id order) db.orders) same ∙ own))
          (λ _ _. still);
  }
