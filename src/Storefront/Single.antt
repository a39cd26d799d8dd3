-- ===== src/Storefront/Single.antt =====
-- What the page of a single product shows.
use agentic_mudahurus.Shared.{
  suc, ◌≡◌, ◌⊎◌, refl, sym, subst, ◌∙◌, ap, Bool, true, some, arith, find-holds, find-IsRow, find,
  Text, codes, none_or_some, inl, inr,
}
use agentic_mudahurus.Schema.{Uuid, Tenant, ProductRow}
use agentic_mudahurus.World.{Env, World, ok, require, ◌>>=◌}
use agentic_mudahurus.World.Inversion.{chain-ok}
use agentic_mudahurus.World.Preserves.{Preserves-require}
use agentic_mudahurus.Httpx.Errors.{bad_request}
use agentic_mudahurus.Auth.Store.{has_username}
use agentic_mudahurus.Catalog.Repo.{scan_product}
use agentic_mudahurus.Storefront.{
  StoreProduct, resolve_tenant, scan_store_product, on_sale, active_product, active_sku,
  one_product, product_detail, product_by_sku,
}
use agentic_mudahurus.Storefront.Shown.{
  scanned-product, resolved, Preserves-resolve_tenant, IsShown,
}

one_product-ok :
    (env : Env) (wanted : ProductRow → Bool) (w : World) (s : StoreProduct)
    → (one_product env wanted w).0 ≡ ok s
    → (p : ProductRow) × (find wanted w.db.products ≡ some p)
      × ((scan_store_product env (scan_product w.db p) (record w { tick = suc w.tick })).0 ≡ ok s)
unfolding one_product ◌>>=◌
one_product-ok env wanted w s h = elim (none_or_some (find wanted w.db.products)) [
  | inl e ↦ absurd (ground arith)
  | inr (p, e) ↦ (p, e, ground arith)
]

one-IsShown :
    (env : Env) (t : Uuid) (wanted : ProductRow → Bool) (w : World) (s : StoreProduct)
    → ((p : ProductRow) → wanted p ≡ true → on_sale t p ≡ true)
    → (one_product env wanted w).0 ≡ ok s
    → IsShown t w.db s
one-IsShown env t wanted w s sale h =
    let (p, e, scanned) = one_product-ok env wanted w s h in
    (
      p,
      sale p (find-holds wanted w.db.products p e),
      find-IsRow wanted w.db.products p e,
      scanned-product env (scan_product w.db p) _ s scanned,
    )

active-on_sale : (t id : Uuid) (p : ProductRow) → active_product t id p ≡ true → on_sale t p ≡ true
active-on_sale t id p h = ground arith

active_sku-on_sale :
    (env : Env) (t : Uuid) (sku : Text) (p : ProductRow)
    → active_sku env t sku p ≡ true
    → on_sale t p ≡ true
active_sku-on_sale env t sku p h = ground arith

-- A single product of a store, by its id or by its SKU. If it is served, it is one of the active products of
-- the seller with the user name asked for: no product that is inactive, and none of another seller.
pub product-IsShown :
    (env : Env) (username param : Text) (w : World) (s : StoreProduct)
    → ((product_detail env username param w).0 ≡ ok s)
      ⊎ ((product_by_sku env username param w).0 ≡ ok s)
    → (t : Tenant) × (find (has_username env username) w.db.tenants ≡ some t) × IsShown t.id w.db s
unfolding product_detail product_by_sku require
product-IsShown env username param w s (inl h) =
    let (t, found, e1) = chain-ok (resolve_tenant env username) _ w s refl h in
    let w1 = (resolve_tenant env username w).1 in
    let same : w1.db ≡ w.db =
      (Preserves-resolve_tenant {P = λ db. db ≡ w.db} env username).holds w refl in
    let asked = require (env.parse_uuid param) (bad_request (codes "invalid product id")) in
    let (id, _, e2) = chain-ok asked _ w1 s e1 h in
    let kept : (asked w1).1.db ≡ w.db =
      (Preserves-require {P = λ db. db ≡ w.db} (env.parse_uuid param) _).holds w1 same in
    (
      t,
      resolved env username w t found,
      subst (λ db. IsShown t.id db s) kept
          (one-IsShown env t.id (active_product t.id id) (asked w1).1 s (active-on_sale t.id id)
            (ap (λ r. r.0) (sym e2) ∙ h)),
    )
product-IsShown env username sku w s (inr h) =
    let (t, found, e1) = chain-ok (resolve_tenant env username) _ w s refl h in
    let w1 = (resolve_tenant env username w).1 in
    let same : w1.db ≡ w.db =
      (Preserves-resolve_tenant {P = λ db. db ≡ w.db} env username).holds w refl in
    (
      t,
      resolved env username w t found,
      subst (λ db. IsShown t.id db s) same
          (one-IsShown env t.id (active_sku env t.id sku) w1 s (active_sku-on_sale env t.id sku)
            (ap (λ r. r.0) (sym e1) ∙ h)),
    )
