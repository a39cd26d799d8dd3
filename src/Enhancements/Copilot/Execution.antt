-- ===== src/Enhancements/Copilot/Execution.antt =====
-- What the copilot carries out: for its own seller only, and under a SKU that the catalogue takes.
use agentic_mudahurus.Shared.{
  ℕ, zero, suc, ◌≤◌, ◌≡◌, ◌≢◌, refl, Bool, true, false, Option, none, some, [], ◌∷◌, ◌++◌, length,
  length-append, length-take, take, All, Text, codes, is_empty, is_space, trim_space, trim,
  trim_left, trim_right, arith,
}
use agentic_mudahurus.Shared.Int.{ℤ}
use agentic_mudahurus.Schema.{Uuid, Category, Status, Db}
use agentic_mudahurus.World.{Env, World, ok, pure, new_uuid, ◌>>=◌}
use agentic_mudahurus.World.Preserves.{
  Preserves, preserve_rules, Preserves-statement, Preserves-bind, Preserves-require,
  Preserves-map_error,
}
use agentic_mudahurus.Httpx.Validation.{is_blank}
use agentic_mudahurus.Tenancy.{SameFor, SameFor-refl}
use agentic_mudahurus.Tenancy.Identity.{Context, tid}
use agentic_mudahurus.Catalog.Repo
use agentic_mudahurus.Catalog.Service as Catalog
use agentic_mudahurus.Catalog.Service.{ProductInput}
use agentic_mudahurus.Catalog.Service.Isolation.{
  Preserves-service_get_product_by_sku, service_create_product-SameFor,
  service_update_product-SameFor, service_create_category-SameFor,
}
use agentic_mudahurus.Orders.Service as Orders
use agentic_mudahurus.Orders.Service.Isolation.{service_update_status-SameFor}
use agentic_mudahurus.Enhancements.Router.{ProposedAction}
use agentic_mudahurus.Enhancements.Copilot.{
  sku_chars, sku_with, derive_sku, is_sku_char, resolve_or_create_category, found_or_created,
  id_or_prefix, resolve_order_id, exec_advance_order, exec_create_product, exec_update_price,
  copilot_execute,
}

-- ---- deriveSKU ----

sku_chars-length : (left : ℕ) (s : Text) → length (sku_chars left s) ≤ left
unfolding sku_chars
sku_chars-length zero s = omega arith
sku_chars-length (suc left) [] = omega arith
sku_chars-length (suc left) (c ∷ s) =
    ground (arith, sku_chars-length left s, sku_chars-length (suc left) s)

sku_chars-IsSku : (left : ℕ) (s : Text) → All (λ c. is_sku_char c ≡ true) (sku_chars left s)
unfolding sku_chars
sku_chars-IsSku zero s = tt
sku_chars-IsSku (suc left) [] = tt
sku_chars-IsSku (suc left) (c ∷ s) =
    ground (arith, sku_chars-IsSku left s, sku_chars-IsSku (suc left) s)

starts-not_blank : (c : ℕ) (s : Text) → is_space c ≡ false → is_blank (c ∷ s) ≡ false
unfolding is_blank trim_space trim trim_left trim_right
starts-not_blank c s h = rw (kept is_space h) (not_empty is_space h)
  where
    kept : (p : ℕ → Bool) → p c ≡ false → trim_left p (c ∷ s) ≡ c ∷ s
    kept p e = rw e refl

    not_empty : (p : ℕ → Bool) → p c ≡ false → is_empty (trim_right p (c ∷ s)) ≡ false
    not_empty p e = ground arith

sku_with-fits :
    (s drawn : Text)
    → All (λ c. is_sku_char c ≡ true) s
    → length s ≤ 8
    → (is_blank (sku_with s drawn) ≡ false) × (length (sku_with s drawn) ≤ 13)
unfolding is_space
sku_with-fits [] drawn h n = (starts-not_blank b'S' _ refl, omega (arith, length-take 6 drawn))
sku_with-fits (c ∷ s) drawn (here, h) n = (starts-not_blank c _ ground arith, bound)
  where
    bound : suc (length (s ++ codes "-" ++ take 4 drawn)) ≤ 13
    bound = omega (
      arith,
      n,
      length-append (s ++ codes "-") (take 4 drawn),
      length-append s (codes "-"),
      length-take 4 drawn,
    )

-- The SKU that the copilot derives from a product's name, whatever the name, is one that the validation of a
-- product takes, and has at most 13 characters.
pub derive_sku_fits :
    (env : Env) (upper : Text → Text) (name : Text) (w : World) (sku : Text)
    → (derive_sku env upper name w).0 ≡ ok sku
    → (is_blank sku ≡ false) × (length sku ≤ 13)
unfolding derive_sku new_uuid pure ◌>>=◌
derive_sku_fits env upper name w sku h =
    let made = sku_chars 8 (upper (trim_space name)) in
    let drawn = env.uuid_string (env.uuid w.tick) in
    let same : sku_with made drawn ≡ sku = cc h in
    rw (← same) (
      sku_with-fits made drawn (sku_chars-IsSku 8 (upper (trim_space name)))
        (sku_chars-length 8 (upper (trim_space name))))

-- ---- isolation ----

-- What the operations that the copilot calls keep, it keeps.
module _ {P : Db → Type 0} (env : Env) (upper : Text → Text) (parse_float : Text → Option ℤ)
    (collates : Text → Text → Bool) (t : Uuid)
    (create : (input : ProductInput) → Preserves P (Catalog.create_product env t input))
    (update : (id : Uuid) (input : ProductInput)
      → Preserves P (Catalog.update_product env t id input))
    (category : (name : Text) → Preserves P (Catalog.create_category env t name []))
    (advance : (id : Uuid) (to : Status) → Preserves P (Orders.update_status env t id to)) where
  derive_sku-keeps : (name : Text) → Preserves P (derive_sku env upper name)
  unfolding derive_sku
  derive_sku-keeps name = search preserve_rules

  found_or_created-keeps :
      (name : Text) (c : Option Category)
      → Preserves P (found_or_created env upper parse_float collates t name c)
  unfolding found_or_created ◌>>=◌
  found_or_created-keeps name none = search (preserve_rules, category)
  found_or_created-keeps name (some c) = search preserve_rules

  list_categories-keeps : Preserves P (Catalog.list_categories env collates t)
  unfolding Catalog.list_categories Repo.list_categories
  list_categories-keeps = Preserves-statement env _ (λ k db h. h)

  resolve_or_create_category-keeps :
      (name : Text) → Preserves P (resolve_or_create_category env upper parse_float collates t name)
  unfolding resolve_or_create_category
  resolve_or_create_category-keeps name =
      search (preserve_rules, found_or_created-keeps, list_categories-keeps)

  exec_create_product-keeps :
      (act : ProposedAction)
      → Preserves P (exec_create_product env upper parse_float collates t act)
  unfolding exec_create_product
  exec_create_product-keeps act =
      search (preserve_rules, derive_sku-keeps, resolve_or_create_category-keeps, create) depth 9

  exec_update_price-keeps :
      (act : ProposedAction) → Preserves P (exec_update_price env upper parse_float collates t act)
  unfolding exec_update_price
  exec_update_price-keeps act =
      search (preserve_rules, Preserves-service_get_product_by_sku, update) depth 9

  module _ (like : Text → Text → Bool) where
    id_or_prefix-keeps :
        (target : Text) (id : Option Uuid)
        → Preserves P (id_or_prefix env upper parse_float collates like t target id)
    unfolding id_or_prefix
    id_or_prefix-keeps target (some id) = search preserve_rules
    id_or_prefix-keeps target none =
        Preserves-bind _ _ (Preserves-map_error _ _ (Preserves-statement env _ (λ k db h. h)))
          (λ found. Preserves-require found _)

    resolve_order_id-keeps :
        (target : Text)
        → Preserves P (resolve_order_id env upper parse_float collates like t target)
    unfolding resolve_order_id
    resolve_order_id-keeps target = id_or_prefix-keeps target (env.parse_uuid target)

    exec_advance_order-keeps :
        (act : ProposedAction)
        → Preserves P (exec_advance_order env upper parse_float collates like t act)
    unfolding exec_advance_order
    exec_advance_order-keeps act = search (preserve_rules, resolve_order_id-keeps, advance) depth 9

    pub copilot_execute-keeps :
        (ctx : Context) (act : ProposedAction)
        → tid ctx ≡ t
        → Preserves P (copilot_execute env upper parse_float collates like ctx act)
    unfolding copilot_execute
    copilot_execute-keeps ctx act own = rw own (
        search
          (
            preserve_rules, exec_create_product-keeps, exec_update_price-keeps,
            exec_advance_order-keeps,
          )
          depth 9)

pub copilot_execute-SameFor :
    {t u : Uuid} (ne : u ≢ t) {before : Db} (env : Env) (upper : Text → Text)
    (parse_float : Text → Option ℤ) (collates like : Text → Text → Bool) (ctx : Context)
    (act : ProposedAction)
    → tid ctx ≡ t
    → Preserves (SameFor u before) (copilot_execute env upper parse_float collates like ctx act)
copilot_execute-SameFor {t} ne env upper parse_float collates like ctx act own =
    copilot_execute-keeps env upper parse_float collates t (service_create_product-SameFor ne env)
      (service_update_product-SameFor ne env)
      (λ name. service_create_category-SameFor ne env name [])
      (service_update_status-SameFor ne env) like ctx act own

-- The copilot acts for its own seller only. Whatever action is sent to be executed, and whether it succeeds or
-- fails, the account, the categories, the products (but for their links to categories) and the orders
-- of every other seller are what they were.
pub copilot_isolated :
    (env : Env) (upper : Text → Text) (parse_float : Text → Option ℤ)
    (collates like : Text → Text → Bool) (ctx : Context) (act : ProposedAction) (u : Uuid)
    (w : World)
    → u ≢ tid ctx
    → SameFor u w.db (copilot_execute env upper parse_float collates like ctx act w).1.db
copilot_isolated env upper parse_float collates like ctx act u w ne =
    (copilot_execute-SameFor ne env upper parse_float collates like ctx act refl).holds w
      (SameFor-refl u w.db)
