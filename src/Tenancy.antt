-- ===== src/Tenancy.antt =====
-- What one tenant owns in the tables, and what it means that an action leaves it alone
-- (docs/ARCHITECTURE.md, multi-tenancy). The identity of api/internal/tenancy is `Tenancy.Identity`.
pub mod Identity
use agentic_mudahurus.Shared.{
  ℕ, ◌≡◌, ◌≢◌, refl, ◌∙◌, ap, Bool, true, false, Option, none, some, List, [], ◌∷◌, ◌++◌, map,
  arith, ◌==◌, ◌&&◌, if◌then◌else◌, Bool-cases, inl, inr, append-nil, select, select-append,
  select-update_where, select-delete_where, update_where, delete_where,
}
use agentic_mudahurus.Schema.{Uuid, Category, ProductRow, OrderRow, Customer, CouponRow, Tenant, Db}

-- The link to a category is left out: a category may be deleted by the tenant that owns it while a
-- product of another tenant refers to it.
abbrev pub without_category : ProductRow → ProductRow
without_category p = record p { category_id = none }

abbrev pub owned_categories : Uuid → Db → List Category
owned_categories u db = select (λ c. c.tenant_id == u) db.categories

abbrev pub owned_products : Uuid → Db → List ProductRow
owned_products u db = map without_category (select (λ p. p.tenant_id == u) db.products)

abbrev pub owned_orders : Uuid → Db → List OrderRow
owned_orders u db = select (λ o. o.tenant_id == u) db.orders

-- The tenant's account, categories, products and orders are what they were.
pub record SameFor (u : Uuid) (before db : Db) : Type 0 where
  pub account : select (λ t. t.id == u) db.tenants ≡ select (λ t. t.id == u) before.tenants
  pub categories : owned_categories u db ≡ owned_categories u before
  pub products : owned_products u db ≡ owned_products u before
  pub orders : owned_orders u db ≡ owned_orders u before

pub SameFor-refl : (u : Uuid) (db : Db) → SameFor u db db
SameFor-refl u db = record { account = refl; categories = refl; products = refl; orders = refl }

pub SameFor-trans : (u : Uuid) (a b c : Db) → SameFor u a b → SameFor u b c → SameFor u a c
SameFor-trans u a b c h k = record {
  account = k.account ∙ h.account;
  categories = k.categories ∙ h.categories;
  products = k.products ∙ h.products;
  orders = k.orders ∙ h.orders;
}

-- An inserted row that the query does not see.
pub select-insert {ℓ} :
    {A : Type ℓ} (q : A → Bool) (xs : List A) (x : A)
    → q x ≡ false
    → select q (xs ++ x ∷ []) ≡ select q xs
select-insert q xs x h = select-append q xs (x ∷ []) ∙ rw h (append-nil (select q xs))

pub select-map {ℓ κ} :
    {A : Type ℓ} {B : Type κ} (g : A → B) (f : A → A) (q : A → Bool) (xs : List A)
    → ((x : A) → (q (f x) ≡ q x) × (g (f x) ≡ g x))
    → map g (select q (map f xs)) ≡ map g (select q xs)
select-map g f q [] h = refl
select-map g f q (x ∷ xs) h =
    let (same, kept) : (q (f x) ≡ q x) × (g (f x) ≡ g x) = h x in
    elim (Bool-cases (q x)) [
      | inl e ↦ rw (same, e) (cc (kept, select-map g f q xs h))
      | inr e ↦ rw (same, e) (select-map g f q xs h)
    ]

module _ {u : Uuid} {before db : Db} (h : SameFor u before db) where
  pub SameFor-categories :
      (cs : List Category)
      → select (λ c. c.tenant_id == u) cs ≡ owned_categories u db
      → SameFor u before (record db { categories = cs })
  SameFor-categories cs e = record {
    account = h.account;
    categories = e ∙ h.categories;
    products = h.products;
    orders = h.orders;
  }

  pub SameFor-products :
      (ps : List ProductRow)
      → map without_category (select (λ p. p.tenant_id == u) ps) ≡ owned_products u db
      → SameFor u before (record db { products = ps })
  SameFor-products ps e = record {
    account = h.account;
    categories = h.categories;
    products = e ∙ h.products;
    orders = h.orders;
  }

  pub SameFor-orders :
      (os : List OrderRow)
      → select (λ o. o.tenant_id == u) os ≡ owned_orders u db
      → SameFor u before (record db { orders = os })
  SameFor-orders os e = record {
    account = h.account;
    categories = h.categories;
    products = h.products;
    orders = e ∙ h.orders;
  }

-- A row of tenant `t` is not one of tenant `u`, alone or behind a test on the id.
pub foreign_row : (t u : Uuid) → u ≢ t → (t == u) ≡ false
foreign_row t u ne = ground arith

pub foreign_match : (t u i a b : Uuid) → u ≢ t → (a == i && b == t) ≡ true → (b == u) ≡ false
foreign_match t u i a b ne e = ground arith
