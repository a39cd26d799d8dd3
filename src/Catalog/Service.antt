-- ===== src/Catalog/Service.antt =====
-- api/internal/catalog/service.go
pub mod Isolation
pub mod Frame
pub mod UniqueSku
pub mod Creation
use agentic_mudahurus.Shared.{
  ℕ, Bool, true, false, Option, none, some, List, [], ◌∷◌, not, ◌&&◌, ◌||◌, if◌then◌else◌, Text,
  codes, text_eq, is_empty, ◌++◌,
}
use agentic_mudahurus.Shared.Int.{ℤ, pos, leb_ℤ}
use agentic_mudahurus.Schema.{Uuid, Category, ProductRow, Product}
use agentic_mudahurus.World.{
  Error, not_found, failure, api, Result, ok, err, product_created, World, Env, Action, pure, raise,
  lift, try, map_error, emit, sign_url, ◌>>=◌, ◌>>◌,
}
use agentic_mudahurus.Httpx.Errors.{bad_request, conflict, missing}
use agentic_mudahurus.Httpx.Validation.{
  Validator, new_validator, require_field, check, is_blank, verdict,
}
use agentic_mudahurus.Catalog.Slug.{slugify}
use agentic_mudahurus.Catalog.Repo

-- `mapErr`
unfoldable pub map_err : Error → Error
map_err not_found = missing (codes "resource not found")
map_err failure = failure
map_err (api e) = api e

parsed : Text → Option Uuid → Result (Option Uuid)
parsed s none = err (bad_request (codes "invalid id: " ++ s))
parsed s (some id) = ok (some id)

-- `toUUID`
unfoldable pub to_uuid : Env → Text → Result (Option Uuid)
unfolding parsed is_blank
to_uuid env s = if is_blank s then ok none else parsed s (env.parse_uuid s)

pub record ProductInput : Type 0 where
  pub category_id : Text
  pub sku : Text
  pub product_name : Text
  pub description : Text
  pub unit_price : ℤ
  pub url_slug : Text
  pub status : Text

unfoldable pub validate_product : ProductInput → Result (Unit {0})
validate_product input =
    let v = check (leb_ℤ (pos 0) input.unit_price) (codes "unit_price") (codes "must be >= 0") (
      require_field (codes "product_name") input.product_name
        (require_field (codes "sku") input.sku new_validator)) in
    verdict (
      if not (is_empty input.status)
        && not (text_eq input.status (codes "active"))
        && not (text_eq input.status (codes "inactive"))
      then check false (codes "status") (codes "must be active or inactive") v
      else v)

-- `if _, err := s.repo.GetProductBySKU(…); err == nil { return …Conflict }`
unfoldable pub refuse_taken : Result Product → Action (Unit {0})
refuse_taken (ok p) = raise (conflict (codes "a product with this SKU already exists"))
refuse_taken (err e) = pure tt

unfoldable pub check_sku : Env → Uuid → Text → Action (Unit {0})
unfolding refuse_taken
check_sku env tenant sku = do
  found ← try (Repo.get_product_by_sku env tenant sku)
  refuse_taken found

abbrev pub or_default : Text → Text → Text
or_default s default = if is_empty s then default else s

-- the struct that `CreateProduct` fills; the database draws the id and the time
abbrev pub new_product : Env → Uuid → Option Uuid → ProductInput → ProductRow
new_product env tenant category input = record {
  id = 0;
  tenant_id = tenant;
  category_id = category;
  sku = input.sku;
  product_name = input.product_name;
  description = input.description;
  unit_price = input.unit_price;
  url_slug = or_default input.url_slug (slugify env.lower_rune input.product_name);
  image_key = [];
  status = or_default input.status (codes "active");
  created_at = 0;
}

unfoldable pub create_product : Env → Uuid → ProductInput → Action Product
unfolding check_sku
create_product env tenant input = do
  lift (validate_product input)
  check_sku env tenant input.sku
  category ← lift (to_uuid env input.category_id)
  p ← Repo.create_product env (new_product env tenant category input)
  emit (record { type = product_created; tenant_id = tenant; source_id = p.id })
  pure (record { row = p; category_name = []; image_url = [] })

abbrev pub changed_product : Uuid → Uuid → Product → Option Uuid → ProductInput → ProductRow
changed_product tenant id existing category input = record {
  id = id;
  tenant_id = tenant;
  category_id = category;
  sku = input.sku;
  product_name = input.product_name;
  description = input.description;
  unit_price = input.unit_price;
  url_slug = or_default input.url_slug existing.url_slug;
  image_key = [];
  status = or_default input.status existing.status;
  created_at = 0;
}

unfoldable pub update_product : Env → Uuid → Uuid → ProductInput → Action Product
unfolding check_sku
update_product env tenant id input = do
  lift (validate_product input)
  existing ← map_error map_err (Repo.get_product env tenant id)
  if env.equal_fold existing.sku input.sku then pure tt else check_sku env tenant input.sku
  category ← lift (to_uuid env input.category_id)
  map_error map_err (Repo.update_product env (changed_product tenant id existing category input))
  Repo.get_product env tenant id

unfoldable pub delete_product : Env → Uuid → Uuid → Action (Unit {0})
delete_product env tenant id = map_error map_err (Repo.delete_product env tenant id)

abbrev signed : Product → Option Text → Product
signed p none = p
signed p (some url) = record p { image_url = url }

unfoldable pub attach_image_url : Env → Product → Action Product
attach_image_url env p =
    if is_empty p.image_key
    then pure p
    else do url ← sign_url env p.image_key 3600; pure (signed p url)

unfoldable pub get_product : Env → Uuid → Uuid → Action Product
unfolding attach_image_url
get_product env tenant id = do
  p ← map_error map_err (Repo.get_product env tenant id)
  attach_image_url env p

unfoldable pub get_product_by_sku : Env → Uuid → Text → Action Product
unfolding attach_image_url
get_product_by_sku env tenant sku = do
  p ← map_error map_err (Repo.get_product_by_sku env tenant sku)
  attach_image_url env p

unfoldable pub attach_all : Env → List Product → Action (List Product)
unfolding attach_image_url
attach_all env [] = pure []
attach_all env (p ∷ ps) = do q ← attach_image_url env p; qs ← attach_all env ps; pure (q ∷ qs)

unfoldable pub list_products : Env → Uuid → Text → ℤ → ℤ → Action (List Product × ℕ)
unfolding attach_all
list_products env tenant search limit offset = do
  (products, total) ← Repo.list_products env tenant search limit offset
  signed ← attach_all env products
  pure (signed, total)

-- ---- categories ----

unfoldable pub validate_category : Text → Result (Unit {0})
validate_category name = verdict (require_field (codes "name") name new_validator)

unfoldable pub create_category : Env → Uuid → Text → Text → Action Category
create_category env tenant name desc = do
  lift (validate_category name)
  Repo.create_category env tenant name desc

unfoldable pub update_category : Env → Uuid → Uuid → Text → Text → Action (Unit {0})
update_category env tenant id name desc = do
  lift (validate_category name)
  map_error map_err (Repo.update_category env tenant id name desc)

unfoldable pub delete_category : Env → Uuid → Uuid → Action (Unit {0})
delete_category env tenant id = map_error map_err (Repo.delete_category env tenant id)

unfoldable pub list_categories : Env → (Text → Text → Bool) → Uuid → Action (List Category)
list_categories env collates tenant = Repo.list_categories env collates tenant
