-- ===== src/Catalog/Service/Creation.antt =====
-- What `CreateProduct` lets pass and what it stores.
use agentic_mudahurus.Shared.{
  ◌≡◌, ◌↔◌, refl, sym, subst, ◌∙◌, ap, Bool, true, false, not, [], ◌∷◌, ◌++◌, if◌then◌else◌, arith,
  Text, codes, text_eq, is_empty, ◌&&◌, ◌||◌,
}
use agentic_mudahurus.Shared.Int.{ℤ, pos, leb_ℤ, ◌≤ℤ◌}
use agentic_mudahurus.Schema.{Uuid, ProductRow, Product, Db}
use agentic_mudahurus.World.{
  Env, World, Error, ok, err, pure, lift, statement, inserted, emit, product_created, ◌>>=◌,
}
use agentic_mudahurus.World.Preserves.{Preserves-lift}
use agentic_mudahurus.World.Inversion.{chain-ok, Atomic, Atomic-read, Atomic-last}
use agentic_mudahurus.Httpx.Validation.{
  Validator, new_validator, check, is_blank, require_field, verdict,
}
use agentic_mudahurus.Httpx.Laws.{verdict-check, verdict-require_field, verdict-set_field}
use agentic_mudahurus.Catalog.Repo
use agentic_mudahurus.Catalog.Service.{
  ProductInput, validate_product, check_sku, to_uuid, new_product, or_default, create_product,
}
use agentic_mudahurus.Catalog.Service.Isolation.{Preserves-check_sku}

abbrev pub status_known : Text → Bool
status_known s = is_empty s || text_eq s (codes "active") || text_eq s (codes "inactive")

-- What a product must have.
pub record IsValid (input : ProductInput) : Type 0 where
  pub sku : is_blank input.sku ≡ false
  pub product_name : is_blank input.product_name ≡ false
  pub unit_price : pos 0 ≤ℤ input.unit_price
  pub status : status_known input.status ≡ true

abbrev field_checks : ProductInput → Validator
field_checks input =
    check (leb_ℤ (pos 0) input.unit_price) (codes "unit_price") (codes "must be >= 0") (
      require_field (codes "product_name") input.product_name
        (require_field (codes "sku") input.sku new_validator))

guarded-verdict :
    (b : Bool) (field msg : Text) (v : Validator)
    → verdict (if b then check false field msg v else v) ≡ ok tt
    → (b ≡ false) × (verdict v ≡ ok tt)
unfolding check
guarded-verdict true field msg v h = absurd (verdict-set_field field msg v h)
guarded-verdict false field msg v h = (refl, h)

abbrev status_unknown : Text → Bool
status_unknown s =
    not (is_empty s) && not (text_eq s (codes "active")) && not (text_eq s (codes "inactive"))

unknown-known : (s : Text) → status_known s ≡ not (status_unknown s)
unknown-known s = de_morgan (is_empty s) (text_eq s (codes "active")) (text_eq s (codes "inactive"))
  where
    de_morgan : (a b c : Bool) → (a || b || c) ≡ not (not a && not b && not c)
    de_morgan true b c = refl
    de_morgan false true c = refl
    de_morgan false false true = refl
    de_morgan false false false = refl

check-passed : (b : Bool) (field msg : Text) (v : Validator) → b ≡ true → check b field msg v ≡ v
unfolding check
check-passed b field msg v h = rw h refl

require_field-filled :
    (field value : Text) (v : Validator) → is_blank value ≡ false → require_field field value v ≡ v
unfolding require_field
require_field-filled field value v h = rw h refl

validate_product-IsValid : (input : ProductInput) → validate_product input ≡ ok tt → IsValid input
unfolding validate_product
validate_product-IsValid input h =
    let (known, checks) =
      guarded-verdict (status_unknown input.status) (codes "status")
        (codes "must be active or inactive") (field_checks input) h in
    let (price, names) =
      verdict-check (leb_ℤ (pos 0) input.unit_price) (codes "unit_price") (codes "must be >= 0") _
        checks in
    let (name, skus) = verdict-require_field (codes "product_name") input.product_name _ names in
    let (sku, _) = verdict-require_field (codes "sku") input.sku new_validator skus in
    record {
      sku = sku;
      product_name = name;
      unit_price = price_positive input.unit_price price;
      status = unknown-known input.status ∙ rw known refl;
    }
  where
    price_positive : (x : ℤ) → leb_ℤ (pos 0) x ≡ true → pos 0 ≤ℤ x
    price_positive x e = ground arith

passed : verdict new_validator ≡ ok tt
unfolding verdict
passed = refl

IsValid-validate_product : (input : ProductInput) → IsValid input → validate_product input ≡ ok tt
unfolding validate_product
IsValid-validate_product input v =
    let known : status_unknown input.status ≡ false =
      unknown_false (status_unknown input.status) (sym (unknown-known input.status) ∙ v.status) in
    rw
      (
        known,
        check-passed (leb_ℤ (pos 0) input.unit_price) (codes "unit_price") (codes "must be >= 0")
            (require_field (codes "product_name") input.product_name
              (require_field (codes "sku") input.sku new_validator))
            (price_tested input.unit_price v.unit_price),
        require_field-filled (codes "product_name") input.product_name
            (require_field (codes "sku") input.sku new_validator) v.product_name,
        require_field-filled (codes "sku") input.sku new_validator v.sku,
      )
      passed
  where
    price_tested : (x : ℤ) → pos 0 ≤ℤ x → leb_ℤ (pos 0) x ≡ true
    price_tested x e = ground arith

    unknown_false : (b : Bool) → not b ≡ true → b ≡ false
    unknown_false b e = ground arith

-- What is stored for a product that `CreateProduct` returns.
pub record IsCreated (t : Uuid) (input : ProductInput) (before db : Db) (p : Product) : Type 0 where
  pub valid : IsValid input
  pub tenant : p.row.tenant_id ≡ t
  pub sku : p.row.sku ≡ input.sku
  pub price : p.row.unit_price ≡ input.unit_price
  pub status : p.row.status ≡ or_default input.status (codes "active")
  pub tables : db ≡ record before { products = before.products ++ p.row ∷ [] }

repo_create_product-ok :
    (env : Env) (p q : ProductRow) (w : World)
    → (Repo.create_product env p w).0 ≡ ok q
    → (record q { id = 0; created_at = 0 } ≡ record p { id = 0; created_at = 0 })
      × ((Repo.create_product env p w).1.db ≡ record w.db { products = w.db.products ++ q ∷ [] })
unfolding Repo.create_product inserted statement
repo_create_product-ok env p q w h = ground arith

create_product-IsCreated :
    (env : Env) (t : Uuid) (input : ProductInput) (w : World) (p : Product)
    → (create_product env t input w).0 ≡ ok p
    → IsCreated t input w.db (create_product env t input w).1.db p
unfolding create_product lift emit pure
create_product-IsCreated env t input w p h =
    let (_, validated, e1) = chain-ok (lift (validate_product input)) _ w p refl h in
    let (_, _, e2) = chain-ok (check_sku env t input.sku) _ w p e1 h in
    let w1 = (check_sku env t input.sku w).1 in
    let (category, _, e3) = chain-ok (lift (to_uuid env input.category_id)) _ w1 p e2 h in
    let new = new_product env t category input in
    let (q, created, e4) = chain-ok (Repo.create_product env new) _ w1 p e3 h in
    let w2 = (Repo.create_product env new w1).1 in
    let (_, _, e5) =
      chain-ok (emit (record { type = product_created; tenant_id = t; source_id = q.id })) _ w2 p e4
        h in
    let same : (record { row = q; category_name = []; image_url = [] } ≡ p) =
      cc (ap (λ s. s.0) e5, h) in
    let (row, stored) = repo_create_product-ok env new q w1 created in
    let kept : w1.db ≡ w.db =
      (Preserves-check_sku {P = λ db. db ≡ w.db} env t input.sku).holds w refl in
    subst (IsCreated t input w.db (create_product env t input w).1.db) same (record {
      valid = validate_product-IsValid input validated;
      tenant = ap (λ r. r.tenant_id) row;
      sku = ap (λ r. r.sku) row;
      price = ap (λ r. r.unit_price) row;
      status = ap (λ r. r.status) row;
      tables =
          ap (λ s. s.1.db) e5
          ∙ stored
          ∙ ap (λ (db : Db). record db { products = db.products ++ q ∷ [] }) kept;
    })

repo_create_product-Atomic : (env : Env) (p : ProductRow) → Atomic (Repo.create_product env p)
unfolding Repo.create_product inserted statement
repo_create_product-Atomic env p = record { holds = λ w e h. ground arith }

create_product-Atomic :
    (env : Env) (t : Uuid) (input : ProductInput) → Atomic (create_product env t input)
unfolding create_product emit pure ◌>>=◌
create_product-Atomic env t input =
    Atomic-read _ _ (λ before. Preserves-lift (validate_product input))
      λ _.
        Atomic-read _ _ (λ before. Preserves-check_sku env t input.sku)
          λ _.
            Atomic-read _ _ (λ before. Preserves-lift (to_uuid env input.category_id))
              λ category.
                Atomic-last _ _ (repo_create_product-Atomic env (new_product env t category input))
                  (λ p w e. cc)

-- The validation of a product passes exactly the inputs with a SKU and a name that are not blank, a
-- price of at least zero, and a status that is empty, active or inactive.
pub validate_product_exact :
    (input : ProductInput) → (validate_product input ≡ ok tt) ↔ IsValid input
validate_product_exact input = (validate_product-IsValid input, IsValid-validate_product input)

-- CreateProduct. If it returns a product, its input was valid, the product belongs to the tenant and has
-- the SKU, the price and the status asked for, active by default, and the tables hold its row behind
-- what they held before. If it fails, the tables are what they were.
pub create_product_outcome :
    (env : Env) (t : Uuid) (input : ProductInput) (w : World)
    → ((p : Product)
        → (create_product env t input w).0 ≡ ok p
        → IsCreated t input w.db (create_product env t input w).1.db p)
      × ((e : Error)
          → (create_product env t input w).0 ≡ err e
          → (create_product env t input w).1.db ≡ w.db)
create_product_outcome env t input w =
    (create_product-IsCreated env t input w, (create_product-Atomic env t input).holds w)
