-- ===== src/Orders/Service/Lifecycle.antt =====
-- Through the services an order's status moves along the allowed transitions only.
pub mod Rows
pub mod Proof
use agentic_mudahurus.Shared.{
  ℕ, ◌≡◌, ◌≢◌, refl, sym, ap, subst, ◌∙◌, Bool, true, false, Option, none, some, List, [], ◌∷◌,
  ◌==◌, ◌&&◌, if◌then◌else◌, not, inl, inr, Bool-cases, find, Text, arith, find-holds, &&-eq-true,
}
use agentic_mudahurus.Shared.Int.{ℤ}
use agentic_mudahurus.Schema.{
  Uuid, Time, Status, pending, payment_received, expired, OrderRow, OrderItem, Order, PaymentStatus,
  Payment, Db,
}
use agentic_mudahurus.World.{
  Env, World, Error, Result, ok, err, Action, pure, raise, map_error, try, emit, ◌>>=◌, ◌>>◌,
}
use agentic_mudahurus.World.Inversion.{map_error-ok}
use agentic_mudahurus.World.Preserves.{
  Preserves, preserve_rules, Preserves-statement, Preserves-transaction, Preserves-bind,
  Preserves-map_error, bind_elim, statement_leads, affected_keeps, inserted_keeps,
}
use agentic_mudahurus.Catalog.Repo.Frame.{OnOrders}
use agentic_mudahurus.Orders.Status.{can_transition, status_eq, status_eq_sound, transitions}
use agentic_mudahurus.Orders.Status.Paths.{Reaches, here, next}
use agentic_mudahurus.Orders.Repo
use agentic_mudahurus.Orders.Repo.{
  is_order, is_stale, with_status, with_details, create_body, priced, fill_totals,
}
use agentic_mudahurus.Orders.Repo.Queries.{get-found, get_by_id-found, found-tenant}
use agentic_mudahurus.Orders.Repo.Isolation.{Preserves-get, Preserves-get_by_id, Preserves-expiry}
use agentic_mudahurus.Orders.Service.{
  map_err, AdminInput, new_order, create_admin, guest_checkout, move_status, update_status, edited,
  update_details, advance_pending, add_payment_proof, verify_payment,
}
use agentic_mudahurus.Orders.Service.Isolation.{Preserves-build_items, Preserves-refuse_empty}
use Rows.{IsLawful, IsLawful-refl, IsLawful-trans, IsLawful-insert, IsLawful-update, same_search}

abbrev pub Lawful : List OrderRow → Db → Type 0
Lawful before = OnOrders (IsLawful before)

expired_step : can_transition pending expired ≡ true
unfolding can_transition
expired_step = refl

stale_reaches : (x : OrderRow) (now : Time) → is_stale now x ≡ true → Reaches x.status expired
stale_reaches x now hit =
    let (e, _) = &&-eq-true _ _ hit in
    rw (status_eq_sound x.status pending e) (next here expired_step)

module _ (before : List OrderRow) (env : Env) where
  insert_order-Lawful :
      (o : OrderRow) → o.status ≡ pending → Preserves (Lawful before) (Repo.insert_order env o)
  unfolding Repo.insert_order
  insert_order-Lawful o e = Preserves-statement env _ λ k db h.
      inserted_keeps (Lawful before) _ _ _ db h
        λ fits. IsLawful-trans before db.orders _ h (IsLawful-insert db.orders _ e)

  insert_item-Lawful :
      (order : Uuid) (i : OrderItem) → Preserves (Lawful before) (Repo.insert_item env order i)
  unfolding Repo.insert_item
  insert_item-Lawful order i =
      Preserves-statement env _ λ k db h. inserted_keeps (Lawful before) _ _ _ db h λ fits. h

  insert_items-Lawful :
      (order : Uuid) (is : List OrderItem)
      → Preserves (Lawful before) (Repo.insert_items env order is)
  unfolding Repo.insert_items
  insert_items-Lawful order [] = search preserve_rules
  insert_items-Lawful order (i ∷ is) =
      let rest = insert_items-Lawful order is in search (preserve_rules, insert_item-Lawful)

  create-Lawful :
      (o : OrderRow) (is : List OrderItem)
      → o.status ≡ pending
      → Preserves (Lawful before) (Repo.create env o is)
  unfolding Repo.create
  create-Lawful o is e = Preserves-transaction env (create_body env o is) (
      search
        (
          preserve_rules,
          Preserves-expiry,
          insert_items-Lawful,
          λ (date : Time). insert_order-Lawful (priced o (fill_totals is) date) e,
        )
        depth 7)

  pub create_admin-Lawful :
      (t : Uuid) (input : AdminInput) → Preserves (Lawful before) (create_admin env t input)
  unfolding create_admin
  create_admin-Lawful t input =
      search
        (
          preserve_rules,
          Preserves-refuse_empty,
          Preserves-build_items,
          λ (is : List OrderItem). create-Lawful (new_order t input) is refl,
        )
        depth 8

  pub guest_checkout-Lawful :
      (t : Uuid) (input : AdminInput) → Preserves (Lawful before) (guest_checkout env t input)
  unfolding guest_checkout
  guest_checkout-Lawful t input =
      search (preserve_rules, Preserves-refuse_empty, create_admin-Lawful)

  update_details-row-Lawful : (o : OrderRow) → Preserves (Lawful before) (Repo.update_details env o)
  unfolding Repo.update_details
  update_details-row-Lawful o = Preserves-statement env _ λ k db h.
      affected_keeps (Lawful before) _ _ _ _ db h λ found. IsLawful-trans before db.orders _ h (
        IsLawful-update db.orders (is_order o.tenant_id o.id) (with_details o) (λ t id x. refl)
          (λ t id x e hit. here))

  pub update_details-Lawful :
      (t id : Uuid) (input : AdminInput) → Preserves (Lawful before) (update_details env t id input)
  unfolding update_details
  update_details-Lawful t id input =
      search (preserve_rules, Preserves-get, update_details-row-Lawful) depth 8

  pub expire_stale-Lawful : Preserves (Lawful before) (Repo.expire_stale env)
  unfolding Repo.expire_stale
  expire_stale-Lawful = Preserves-statement env _ λ k db h. IsLawful-trans before db.orders _ h (
      IsLawful-update db.orders (is_stale (env.now k)) (with_status expired) (λ t id x. refl)
        (λ t id x e hit. stale_reaches x (env.now k) hit))

  -- An UPDATE of the status is lawful in a database where the order stands at a status from which
  -- the new one can be reached.
  pub update_status-row-Lawful :
      (t id : Uuid) (o : OrderRow) (to : Status)
      → Reaches o.status to
      → (w : World) → Lawful before w.db
      → find (is_order t id) w.db.orders ≡ some o
      → Lawful before (Repo.update_status env t id to w).1.db
  unfolding Repo.update_status
  update_status-row-Lawful t id o to r w h e =
      statement_leads (λ db. Lawful before db × (find (is_order t id) db.orders ≡ some o))
        (Lawful before) env _ (λ db g. g.0)
        (λ k db g. affected_keeps (Lawful before) _ _ _ _ db g.0 λ found.
          IsLawful-trans before db.orders _ g.0 (
            IsLawful-update db.orders (is_order t id) (with_status to) (λ t' id' x. refl)
              (λ t' id' x e' hit.
                let same = same_search t' id' t id db.orders x o e' hit g.1 in
                subst (λ (y : OrderRow). Reaches y.status to) (sym same) r)))
        w (h, e)

  write_status-Lawful :
      (t id : Uuid) (o : OrderRow) (to : Status)
      → Reaches o.status to
      → (w : World) → Lawful before w.db
      → find (is_order t id) w.db.orders ≡ some o
      → Lawful before
          ((map_error map_err (Repo.update_status env t id to) >> Repo.get env t id) w).1.db
  write_status-Lawful t id o to r w h e =
      let written : Lawful before (map_error map_err (Repo.update_status env t id to) w).1.db =
        unfold map_error in update_status-row-Lawful t id o to r w h e in
      bind_elim (λ s. Lawful before s.1.db) (map_error map_err (Repo.update_status env t id to)) _ w
        (λ _ _. (Preserves-get {P = Lawful before} env t id).holds _ written) (λ _ _. written)

  move_status-Lawful :
      (t id : Uuid) (o : Order) (to : Status) (w : World)
      → Lawful before w.db
      → find (is_order t id) w.db.orders ≡ some o.row
      → Lawful before (move_status env t id o to w).1.db
  unfolding move_status
  move_status-Lawful t id o to w h e = elim (Bool-cases (status_eq o.status to)) [
    | inl same ↦ rw same (unfold pure in h)
    | inr differs ↦ elim (Bool-cases (can_transition o.status to)) [
      | inl allowed ↦
          rw (differs, allowed) (write_status-Lawful t id o.row to (next here allowed) w h e)
      | inr refused ↦ rw (differs, refused) (unfold raise in h)
    ]
  ]

  pub update_status-Lawful :
      (t id : Uuid) (to : Status) → Preserves (Lawful before) (update_status env t id to)
  unfolding update_status
  update_status-Lawful t id to = record {
    holds = λ w h.
        let read : Preserves (Lawful before) (map_error map_err (Repo.get env t id)) =
          Preserves-map_error map_err _ (Preserves-get env t id) in
        let still : Preserves (λ db. db ≡ w.db) (map_error map_err (Repo.get env t id)) =
          Preserves-map_error map_err _ (Preserves-get env t id) in
        bind_elim (λ s. Lawful before s.1.db) (map_error map_err (Repo.get env t id)) _ w
          (λ o e.
            let found = get-found env t id w o (map_error-ok map_err (Repo.get env t id) w o e) in
            move_status-Lawful t id o to _ (read.holds w h)
              (ap (λ (db : Db). find (is_order t id) db.orders) (still.holds w refl) ∙ found))
          (λ x e. read.holds w h);
  }

  add_payment-Lawful :
      (order : Uuid) (key : Text) (amount : ℤ)
      → Preserves (Lawful before) (Repo.add_payment env order key amount)
  unfolding Repo.add_payment
  add_payment-Lawful order key amount =
      Preserves-statement env _ λ k db h. inserted_keeps (Lawful before) _ _ _ db h λ fits. h

  pub verify_payment-Lawful :
      (t id : Uuid) (accept : Bool) → Preserves (Lawful before) (verify_payment env t id accept)
  unfolding verify_payment Repo.set_payment_status
  verify_payment-Lawful t id accept =
      Preserves-map_error map_err _
        (Preserves-statement env _ λ k db h. affected_keeps (Lawful before) _ _ _ _ db h λ found. h)
