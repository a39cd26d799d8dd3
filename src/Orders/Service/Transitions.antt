-- ===== src/Orders/Service/Transitions.antt =====
-- What `UpdateStatus` comes to, on every branch.
use agentic_mudahurus.Shared.{
  ◌≡◌, ◌≢◌, ◌⊎◌, inl, inr, Bool-cases, refl, sym, subst, ◌∙◌, ap, true, false, some, List, arith,
  find, find-update_where, find-holds, update_where,
}
use agentic_mudahurus.Schema.{Uuid, Status, OrderRow, Order, Db}
use agentic_mudahurus.World.{Env, World, ok, pure, raise, map_error, statement, affected, ◌>>◌}
use agentic_mudahurus.World.Preserves.{bind_elim}
use agentic_mudahurus.World.Inversion.{bind-ok, map_error-ok}
use agentic_mudahurus.Orders.Status.{can_transition, status_eq, status_eq_sound, status_eq_refl}
use agentic_mudahurus.Orders.Repo
use agentic_mudahurus.Orders.Repo.{
  is_order, with_status, is_stale, matching_orders, order_matches, order_newer,
}
use agentic_mudahurus.Orders.Repo.Queries.{get-found}
use agentic_mudahurus.Orders.Repo.Isolation.{Preserves-get}
use agentic_mudahurus.Orders.Service.{map_err, move_status, update_status}

-- ---- UpdateStatus ----

repo_update_status-ok :
    (env : Env) (t id : Uuid) (to : Status) (w : World)
    → (Repo.update_status env t id to w).0 ≡ ok tt
    → (Repo.update_status env t id to w).1.db.orders
      ≡ update_where (is_order t id) (with_status to) w.db.orders
unfolding Repo.update_status affected statement
repo_update_status-ok env t id to w h = ground arith

-- The row of an order before the operation and after.
pub record Moved (t id : Uuid) (to : Status) (before after : List OrderRow) (p : Order)
    : Type 0 where
  pub was : OrderRow
  pub found : find (is_order t id) before ≡ some was
  pub allowed : (was.status ≡ to) ⊎ (can_transition was.status to ≡ true)
  pub row : p.row ≡ with_status to was
  pub stored : find (is_order t id) after ≡ some p.row

-- The row of an order that is found, after its status was set.
pub find-with_status :
    (t id : Uuid) (to : Status) (os : List OrderRow) (o : OrderRow)
    → find (is_order t id) os ≡ some o
    → find (is_order t id) (update_where (is_order t id) (with_status to) os)
      ≡ some (with_status to o)
find-with_status t id to os o found =
    let hit = find-holds (is_order t id) os o found in
    find-update_where (is_order t id) (is_order t id) (with_status to) os (λ x. refl)
    ∙ rw (found, hit) refl

with_status_same : (o : OrderRow) (to : Status) → o.status ≡ to → o ≡ with_status to o
with_status_same o to e = ap (λ s. record o { status = s }) e

set_and_get-ok :
    (env : Env) (t id : Uuid) (o : OrderRow) (p : Order) (to : Status) (w : World)
    → find (is_order t id) w.db.orders ≡ some o
    → can_transition o.status to ≡ true
    → ((map_error map_err (Repo.update_status env t id to) >> Repo.get env t id) w).0 ≡ ok p
    → Moved t id to w.db.orders
        ((map_error map_err (Repo.update_status env t id to) >> Repo.get env t id) w).1.db.orders
        p
unfolding map_error
set_and_get-ok env t id o p to w found allowed h =
    let (_, eu, e) =
      bind-ok (map_error map_err (Repo.update_status env t id to)) (λ _. Repo.get env t id) w p h in
    let w1 = (Repo.update_status env t id to w).1 in
    let set : w1.db.orders ≡ update_where (is_order t id) (with_status to) w.db.orders =
      repo_update_status-ok env t id to w
        (map_error-ok map_err (Repo.update_status env t id to) w tt eu) in
    let read : find (is_order t id) w1.db.orders ≡ some p.row =
      get-found env t id w1 p (sym (ap (λ s. s.0) e) ∙ h) in
    let written : find (is_order t id) w1.db.orders ≡ some (with_status to o) =
      rw set (find-with_status t id to w.db.orders o found) in
    let kept =
      ap (λ s. s.1.db.orders) e
      ∙ ap (λ (db : Db). db.orders)
          ((Preserves-get {P = λ db. db ≡ w1.db} env t id).holds w1 refl) in
    record {
      was = o;
      found = found;
      allowed = inr allowed;
      row = cc (read, written);
      stored = rw kept read;
    }

move_status-ok :
    (env : Env) (t id : Uuid) (o p : Order) (to : Status) (w : World)
    → find (is_order t id) w.db.orders ≡ some o.row
    → (move_status env t id o to w).0 ≡ ok p
    → Moved t id to w.db.orders (move_status env t id o to w).1.db.orders p
unfolding move_status pure raise
move_status-ok env t id o p to w found h = elim (Bool-cases (status_eq o.status to)) [
  | inl there ↦
      let same : o ≡ p = cc (rw there at h) in
      let is_to = status_eq_sound o.status to there in
      rw there (record {
        was = o.row;
        found = found;
        allowed = inl is_to;
        row = sym (ap (λ (q : Order). q.row) same) ∙ with_status_same o.row to is_to;
        stored = found ∙ ap (λ (q : Order). some q.row) same;
      })
  | inr away ↦ elim (Bool-cases (can_transition o.status to)) [
    | inr refused ↦ absurd (cc (rw (away, refused) at h))
    | inl allowed ↦
        rw (away, allowed)
          (set_and_get-ok env t id o.row p to w found allowed (rw (away, allowed) at h))
  ]
]

update_status-Moved :
    (env : Env) (t id : Uuid) (to : Status) (w : World) (p : Order)
    → (update_status env t id to w).0 ≡ ok p
    → Moved t id to w.db.orders (update_status env t id to w).1.db.orders p
unfolding update_status map_error
update_status-Moved env t id to w p h =
    let (o, eo, e) =
      bind-ok (map_error map_err (Repo.get env t id)) (λ o. move_status env t id o to) w p h in
    let w1 = (Repo.get env t id w).1 in
    let found = get-found env t id w o (map_error-ok map_err (Repo.get env t id) w o eo) in
    let same : w1.db ≡ w.db = (Preserves-get {P = λ db. db ≡ w.db} env t id).holds w refl in
    let moved =
      move_status-ok env t id o p to w1
        (ap (λ (db : Db). find (is_order t id) db.orders) same ∙ found)
        (sym (ap (λ s. s.0) e) ∙ h) in
    subst (λ os. Moved t id to os (update_status env t id to w).1.db.orders p)
      (ap (λ (db : Db). db.orders) same)
      (subst (λ os. Moved t id to w1.db.orders os p) (sym (ap (λ s. s.1.db.orders) e)) moved)

move_status-refused :
    (env : Env) (t id : Uuid) (o : Order) (to : Status) (w : World)
    → status_eq o.status to ≡ false
    → can_transition o.status to ≡ false
    → (move_status env t id o to w).1.db ≡ w.db
unfolding move_status raise
move_status-refused env t id o to w away refused = rw (away, refused) refl

-- The order under that id stands at a status that the transition table does not let go to `to`.
pub record IsRefused (t id : Uuid) (to : Status) (os : List OrderRow) (o : OrderRow) : Type 0 where
  pub found : find (is_order t id) os ≡ some o
  pub away : status_eq o.status to ≡ false
  pub refused : can_transition o.status to ≡ false

update_status-refused :
    (env : Env) (t id : Uuid) (to : Status) (w : World) (o : OrderRow)
    → IsRefused t id to w.db.orders o
    → ((p : Order) → (update_status env t id to w).0 ≢ ok p)
      × ((update_status env t id to w).1.db ≡ w.db)
unfolding update_status map_error
update_status-refused env t id to w o r =
    let same : (Repo.get env t id w).1.db ≡ w.db =
      (Preserves-get {P = λ db. db ≡ w.db} env t id).holds w refl in
    (
      λ p h.
          let m = update_status-Moved env t id to w p h in
          let was : m.was ≡ o = cc (m.found, r.found) in
          elim m.allowed [
            | inl there ↦
                let same_status : o.status ≡ to = sym (ap (λ x. x.status) was) ∙ there in
                cc (status_eq_refl to, subst (λ s. status_eq s to ≡ false) same_status r.away)
            | inr ok_step ↦
                cc (subst (λ x. can_transition x.status to ≡ true) was ok_step, r.refused)
          ],
      bind_elim (λ s. s.1.db ≡ w.db) (map_error map_err (Repo.get env t id))
          (λ q. move_status env t id q to) w
          (λ q e.
            let found = get-found env t id w q (map_error-ok map_err (Repo.get env t id) w q e) in
            let row : q.row ≡ o = cc (found, r.found) in
            move_status-refused env t id q to (Repo.get env t id w).1
              (subst (λ (x : OrderRow). status_eq x.status to ≡ false) (sym row) r.away)
              (subst (λ (x : OrderRow). can_transition x.status to ≡ false) (sym row) r.refused)
            ∙ same)
          (λ e failed. same),
    )

-- UpdateStatus. If it returns an order, the seller's first order under that id had the status asked for
-- already or one that the transition table lets go to it; the row returned and the row found under
-- that id afterwards are that row with the status asked for, and nothing else of it changed. If the
-- order stands at a status that may not go there, it returns no order and no table changes.
pub update_status_outcome :
    (env : Env) (t id : Uuid) (to : Status) (w : World)
    → ((p : Order)
        → (update_status env t id to w).0 ≡ ok p
        → Moved t id to w.db.orders (update_status env t id to w).1.db.orders p)
      × ((o : OrderRow)
          → IsRefused t id to w.db.orders o
          → ((p : Order) → (update_status env t id to w).0 ≢ ok p)
            × ((update_status env t id to w).1.db ≡ w.db))
update_status_outcome env t id to w =
    (update_status-Moved env t id to w, update_status-refused env t id to w)
