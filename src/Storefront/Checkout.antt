-- ===== src/Storefront/Checkout.antt =====
-- An order that a guest places in a store.
use agentic_mudahurus.Shared.{◌≡◌, refl, sym, subst, ◌∙◌, ap, false, some, find, Text, codes}
use agentic_mudahurus.Schema.{Uuid, Tenant, Order}
use agentic_mudahurus.World.{Env, World, Error, ok, err, pure, lift}
use agentic_mudahurus.World.Inversion.{chain-ok, Atomic, Atomic-read, Atomic-last}
use agentic_mudahurus.World.Preserves.{Preserves-lift}
use agentic_mudahurus.Httpx.Validation.{Validator, is_blank, new_validator, require_field, verdict}
use agentic_mudahurus.Httpx.Laws.{verdict-require_field}
use agentic_mudahurus.Auth.Store.{has_username}
use agentic_mudahurus.Orders.Service.{AdminInput, create_admin, guest_checkout, refuse_empty}
use agentic_mudahurus.Orders.Service.Creation.{IsCreated, create_admin_outcome}
use agentic_mudahurus.Orders.Service.Isolation.{Preserves-refuse_empty}
use agentic_mudahurus.Storefront.{Placed, placed, resolve_tenant, checkout}
use agentic_mudahurus.Storefront.Shown.{resolved, Preserves-resolve_tenant}

abbrev named : AdminInput → Validator
named input = require_field (codes "full_name") input.full_name new_validator

abbrev reachable : AdminInput → Validator
reachable input = require_field (codes "contact_no") input.contact_no (named input)

guest_checkout-ok :
    (env : Env) (t : Uuid) (input : AdminInput) (w : World) (o : Order)
    → (guest_checkout env t input w).0 ≡ ok o
    → IsCreated env t input w.db (guest_checkout env t input w).1.db o
      × (is_blank input.contact_no ≡ false)
unfolding guest_checkout lift
guest_checkout-ok env t input w o h =
    let (_, valid, e1) = chain-ok (lift (verdict (reachable input))) _ w o refl h in
    let empty = refuse_empty (codes "cart is empty") input.items in
    let (_, _, e2) = chain-ok empty _ w o e1 h in
    let same : (empty w).1.db ≡ w.db =
      (Preserves-refuse_empty {P = λ db. db ≡ w.db} env (codes "cart is empty") input.items).holds w
        refl in
    let created = (create_admin_outcome env t input (empty w).1).0 o (ap (λ r. r.0) (sym e2) ∙ h) in
    let (contact, _) =
      verdict-require_field (codes "contact_no") input.contact_no (named input) valid in
    (
      subst (λ db. IsCreated env t input w.db db o) (ap (λ r. r.1.db) (sym e2))
          (subst (λ db. IsCreated env t input db (create_admin env t input (empty w).1).1.db o) same
            created),
      contact,
    )

guest_checkout-Atomic :
    (env : Env) (t : Uuid) (input : AdminInput) → Atomic (guest_checkout env t input)
unfolding guest_checkout
guest_checkout-Atomic env t input =
    Atomic-read _ _ (λ before. Preserves-lift (verdict (reachable input)))
      λ _.
        Atomic-read _ _ (λ before. Preserves-refuse_empty env (codes "cart is empty") input.items)
          λ _. record { holds = λ w. (create_admin_outcome env t input w).1 }

checkout-Atomic :
    (env : Env) (username : Text) (input : AdminInput) → Atomic (checkout env username input)
unfolding checkout pure
checkout-Atomic env username input =
    Atomic-read _ _ (λ before. Preserves-resolve_tenant env username)
      λ t. Atomic-last _ _ (guest_checkout-Atomic env t.id input) (λ o w e. cc)

-- A guest's order, with amounts in whole sen. If the request is answered, the guest gave a name, a number to
-- be reached at and at least one item; the order belongs to the seller with the user name in the path,
-- is pending and has the name, the addresses, the number and the notes sent; its items answer the
-- lines of the cart one by one: the SKU, the quantity or one where it is not positive, and the
-- seller's product with its name and with the price sent, or its own where zero was sent, or no
-- product where none was found or a statement failed; each line's total is quantity times price, and
-- the order's total is their sum; the tables hold the order and its items behind what they held; and
-- the answer shows that order. If it fails, the tables are what they were.
pub checkout_outcome :
    (env : Env) (username : Text) (input : AdminInput) (w : World)
    → ((shown : Placed)
        → (checkout env username input w).0 ≡ ok shown
        → (t : Tenant) × (o : Order) × (find (has_username env username) w.db.tenants ≡ some t)
          × (shown ≡ placed env o)
          × (is_blank input.contact_no ≡ false)
          × IsCreated env t.id input w.db (checkout env username input w).1.db o)
      × ((e : Error)
          → (checkout env username input w).0 ≡ err e
          → (checkout env username input w).1.db ≡ w.db)
unfolding checkout pure
checkout_outcome env username input w = (
  λ shown h.
      let (t, found, e1) = chain-ok (resolve_tenant env username) _ w shown refl h in
      let w1 = (resolve_tenant env username w).1 in
      let same : w1.db ≡ w.db =
        (Preserves-resolve_tenant {P = λ db. db ≡ w.db} env username).holds w refl in
      let (o, done, e2) = chain-ok (guest_checkout env t.id input) _ w1 shown e1 h in
      let (created, contact) = guest_checkout-ok env t.id input w1 o done in
      (
        t,
        o,
        resolved env username w t found,
        cc (ap (λ s. s.0) e2, h),
        contact,
        subst (λ db. IsCreated env t.id input w.db db o) (sym (ap (λ s. s.1.db) e2))
            (subst (λ db. IsCreated env t.id input db (guest_checkout env t.id input w1).1.db o)
              same created),
      ),
  (checkout-Atomic env username input).holds w,
)
