-- ===== src/Orders/Handler/Proofs.antt =====
-- The proof of a payment that a guest uploads: what is stored, and what becomes of the order.
use agentic_mudahurus.Shared.{
  ◌≡◌, ◌≢◌, ◌⊎◌, inl, inr, refl, sym, subst, ◌∙◌, ap, some, [], ◌∷◌, ◌++◌, find, update_where, Text,
  arith, Bool-cases, ◌==◌,
}
use agentic_mudahurus.Shared.Int.{ℤ}
use agentic_mudahurus.Schema.{
  Uuid, pending, payment_received, OrderRow, Order, submitted, Payment, Db,
}
use agentic_mudahurus.World.{
  Env, World, Action, Error, ok, err, pure, try, map_error, emit, payment_uploaded, ◌>>◌, statement,
  affected, inserted, ◌>>=◌,
}
use agentic_mudahurus.World.Inversion.{chain-ok, map_error-ok, Atomic, Atomic-read, Atomic-last}
use agentic_mudahurus.World.Preserves.{Preserves, preserve_rules}
use agentic_mudahurus.World.Quiet.{LeavesFiles, quiet_rules}
use agentic_mudahurus.Storage.{read}
use agentic_mudahurus.Orders.Status.{status_eq, status_eq_sound}
use agentic_mudahurus.Orders.Repo
use agentic_mudahurus.Orders.Repo.{is_order, with_status}
use agentic_mudahurus.Orders.Repo.Queries.{get_by_id-found}
use agentic_mudahurus.Orders.Repo.Isolation.{Preserves-get_by_id}
use agentic_mudahurus.Orders.Service.{map_err, advance_pending, add_payment_proof}

-- ---- AddPaymentProof ----

add_payment-ok :
    (env : Env) (order : Uuid) (key : Text) (amount : ℤ) (w : World) (p : Payment)
    → (Repo.add_payment env order key amount w).0 ≡ ok p
    → (p.row.order_id ≡ order)
      × (p.row.proof_key ≡ key)
      × (p.row.amount ≡ amount)
      × (p.row.status ≡ submitted)
      × ((Repo.add_payment env order key amount w).1.db
          ≡ record w.db { payments = w.db.payments ++ p.row ∷ [] })
      × ((Repo.add_payment env order key amount w).1.files ≡ w.files)
unfolding Repo.add_payment inserted statement
add_payment-ok env order key amount w p h = ground arith

abbrev received : Uuid → Uuid → Db → Db
received tenant id db = record db {
  orders = update_where (is_order tenant id) (with_status payment_received) db.orders;
}

update_status-tables :
    (env : Env) (t id : Uuid) (w : World)
    → (((Repo.update_status env t id payment_received w).1.db ≡ w.db)
        ⊎ ((Repo.update_status env t id payment_received w).1.db ≡ received t id w.db))
      × ((Repo.update_status env t id payment_received w).1.files ≡ w.files)
unfolding Repo.update_status affected statement
update_status-tables env t id w = ground arith

-- The order goes on to `payment_received`, if it was pending and the statement ran.
advance_pending-tables :
    (env : Env) (o : Order) (id : Uuid) (w : World)
    → (((advance_pending env o id w).1.db ≡ w.db)
        ⊎ ((o.row.status ≡ pending)
            × ((advance_pending env o id w).1.db ≡ received o.row.tenant_id id w.db)))
      × ((advance_pending env o id w).1.files ≡ w.files)
unfolding advance_pending try pure ◌>>=◌
advance_pending-tables env o id w =
    let (moved, files) = update_status-tables env o.row.tenant_id id w in
    elim (Bool-cases (status_eq o.row.status pending)) [
      | inr e ↦ rw e (inl refl, refl)
      | inl e ↦ rw e (waiting moved (status_eq_sound o.row.status pending e), files)
    ]
  where
    waiting : {P Q R : Type 0} → P ⊎ Q → R → P ⊎ (R × Q)
    waiting (inl p) r = inl p
    waiting (inr q) r = inr (r, q)

-- What a payment proof that was taken changed in the tables.
pub record IsProof (o : OrderRow) (id : Uuid) (key : Text) (before after : Db) (p : Payment)
    : Type 0 where
  pub order : p.row.order_id ≡ id
  pub amount : p.row.amount ≡ o.total_price
  pub proof : p.row.proof_key ≡ key
  pub status : p.row.status ≡ submitted
  pub tables :
      (after ≡ record before { payments = before.payments ++ p.row ∷ [] })
      ⊎ ((o.status ≡ pending)
          × (after
              ≡ received o.tenant_id id
                  (record before { payments = before.payments ++ p.row ∷ [] })))

pub read_order-same :
    (env : Env) (id : Uuid) (w : World) → (map_error map_err (Repo.get_by_id env id) w).1.db ≡ w.db
read_order-same env id w =
    let kept : Preserves (λ db. db ≡ w.db) (map_error map_err (Repo.get_by_id env id)) =
      search (preserve_rules, Preserves-get_by_id) in
    kept.holds w refl

pub read_order-found :
    (env : Env) (id : Uuid) (w : World) (o : Order)
    → (map_error map_err (Repo.get_by_id env id) w).0 ≡ ok o
    → find (λ x. x.id == id) w.db.orders ≡ some o.row
read_order-found env id w o h =
    get_by_id-found env id w o (map_error-ok map_err (Repo.get_by_id env id) w o h)

pub add_payment_proof-ok :
    (env : Env) (o : OrderRow) (id : Uuid) (key : Text) (w : World) (p : Payment)
    → find (λ x. x.id == id) w.db.orders ≡ some o
    → (add_payment_proof env id key o.total_price w).0 ≡ ok p
    → IsProof o id key w.db (add_payment_proof env id key o.total_price w).1.db p
unfolding add_payment_proof emit pure
add_payment_proof-ok env o id key w p found h =
    let (q, read, e1) = chain-ok (map_error map_err (Repo.get_by_id env id)) _ w p refl h in
    let w1 = (map_error map_err (Repo.get_by_id env id) w).1 in
    let same = read_order-same env id w in
    let own : q.row ≡ o = cc (read_order-found env id w q read, found) in
    let (r, added, e2) = chain-ok (Repo.add_payment env id key o.total_price) _ w1 p e1 h in
    let w2 = (Repo.add_payment env id key o.total_price w1).1 in
    let (_, _, e3) = chain-ok (advance_pending env q id) _ w2 p e2 h in
    let w3 = (advance_pending env q id w2).1 in
    let (_, _, e4) =
      chain-ok
        (emit (record { type = payment_uploaded; tenant_id = q.row.tenant_id; source_id = id })) _
        w3 p e3 h in
    let answer : r ≡ p = cc (ap (λ s. s.0) e4, h) in
    let (order, proof, amount, status, tables, _) =
      add_payment-ok env id key o.total_price w1 r added in
    let (moved, _) = advance_pending-tables env q id w2 in
    let rows : w2.db ≡ record w.db { payments = w.db.payments ++ r.row ∷ [] } =
      tables ∙ ap (λ (db : Db). record db { payments = db.payments ++ r.row ∷ [] }) same in
    let final : (add_payment_proof env id key o.total_price w).1.db ≡ w3.db = ap (λ s. s.1.db) e4 in
    subst (IsProof o id key w.db (add_payment_proof env id key o.total_price w).1.db) answer
      (record {
        order = order;
        amount = amount;
        proof = proof;
        status = status;
        tables = elim moved [
          | inl still ↦ inl (final ∙ still ∙ rows)
          | inr (waits, got) ↦ inr (
            ap (λ (x : OrderRow). x.status) (sym own) ∙ waits,
            final
                ∙ got
                ∙ ap (λ (x : OrderRow). received x.tenant_id id w2.db) own
                ∙ ap (received o.tenant_id id) rows,
          )
        ];
      })

pub add_payment_proof-quiet :
    (env : Env) (id : Uuid) (key : Text) (amount : ℤ)
    → LeavesFiles (add_payment_proof env id key amount)
unfolding add_payment_proof advance_pending Repo.get_by_id Repo.load_children Repo.add_payment
    Repo.update_status
add_payment_proof-quiet env id key amount = search quiet_rules depth 12

read_order-quiet : (env : Env) (id : Uuid) → LeavesFiles (map_error map_err (Repo.get_by_id env id))
unfolding Repo.get_by_id Repo.load_children
read_order-quiet env id = search quiet_rules depth 12

add_payment-Atomic :
    (env : Env) (id : Uuid) (key : Text) (amount : ℤ) → Atomic (Repo.add_payment env id key amount)
unfolding Repo.add_payment inserted statement
add_payment-Atomic env id key amount = record { holds = λ w e h. ground arith }

abbrev finish : Env → Order → Uuid → Payment → Action Payment
finish env o id p = do
  advance_pending env o id
  emit (record { type = payment_uploaded; tenant_id = o.row.tenant_id; source_id = id })
  pure p

finish-total :
    (env : Env) (o : Order) (id : Uuid) (p : Payment) (w : World) (e : Error)
    → (finish env o id p w).0 ≢ err e
unfolding advance_pending try emit pure ◌>>=◌
finish-total env o id p w e h = elim (Bool-cases (status_eq o.row.status pending)) [
  | inl t ↦ absurd (cc (rw t at h))
  | inr f ↦ absurd (cc (rw f at h))
]

pub add_payment_proof-Atomic :
    (env : Env) (id : Uuid) (key : Text) (amount : ℤ) → Atomic (add_payment_proof env id key amount)
unfolding add_payment_proof
add_payment_proof-Atomic env id key amount =
    Atomic-read _ _ (λ before. search (preserve_rules, Preserves-get_by_id))
      λ o.
        Atomic-last (Repo.add_payment env id key amount) (finish env o id)
          (add_payment-Atomic env id key amount) (finish-total env o id)
