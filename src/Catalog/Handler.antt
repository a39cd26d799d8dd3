-- ===== src/Catalog/Handler.antt =====
-- api/internal/catalog/handler.go, behind the decoding of JSON and of the multipart form.
pub mod CleanUp
pub mod Images
pub mod Uploads
use agentic_mudahurus.Shared.{
  ℕ, Bool, Option, List, ◌∷◌, [], not, ◌&&◌, if◌then◌else◌, length, Text, codes, text_eq, is_empty,
}
use agentic_mudahurus.Schema.{Uuid, Category, Product}
use agentic_mudahurus.World.{
  Error, Result, ok, err, Env, Action, pure, raise, lift, require, try, map_error, ◌>>=◌, ◌>>◌,
}
use agentic_mudahurus.Httpx.Errors.{bad_request}
use agentic_mudahurus.Httpx.Paging.{Page}
use agentic_mudahurus.Tenancy.Identity.{Context, tid}
use agentic_mudahurus.Storage.{
  Disk, Upload, Refusals, check_upload, allowed_image_mime, put_object, delete_object,
}
use agentic_mudahurus.Catalog.Repo
use agentic_mudahurus.Catalog.Service as Catalog
use agentic_mudahurus.Catalog.Service.{ProductInput, map_err}

abbrev pub image_refusals : Refusals
image_refusals = record {
  absent = codes "missing 'image' file";
  too_large = codes "image exceeds maximum size";
  bad_type = codes "unsupported image type: ";
}

module _ (env : Env) where
  -- `parseID`
  unfoldable pub parse_id : Text → Action Uuid
  parse_id param = require (env.parse_uuid param) (bad_request (codes "invalid id"))

  unfoldable pub handle_list_products : Context → Page → Action (List Product × ℕ)
  handle_list_products ctx p = Catalog.list_products env (tid ctx) p.search p.limit p.offset

  unfoldable pub handle_create_product : Context → ProductInput → Action Product
  handle_create_product ctx input = Catalog.create_product env (tid ctx) input

  unfoldable pub handle_get_product : Context → Text → Action Product
  unfolding parse_id
  handle_get_product ctx param = do id ← parse_id param; Catalog.get_product env (tid ctx) id

  unfoldable pub handle_get_product_by_sku : Context → Text → Action Product
  handle_get_product_by_sku ctx sku = Catalog.get_product_by_sku env (tid ctx) sku

  unfoldable pub handle_update_product : Context → Text → ProductInput → Action Product
  unfolding parse_id
  handle_update_product ctx param input = do
    id ← parse_id param
    Catalog.update_product env (tid ctx) id input

  unfoldable pub handle_delete_product : Context → Text → Action (Unit {0})
  unfolding parse_id
  handle_delete_product ctx param = do id ← parse_id param; Catalog.delete_product env (tid ctx) id

  -- `_ = h.store.Delete(ctx, key)`
  abbrev pub drop_object : Disk → Text → Action (Unit {0})
  drop_object disk key = do ignored ← try (delete_object disk key); pure tt

  -- once the image is set or not: the new file goes, or the old one
  unfoldable pub clean_up : Disk → Text → Result Text → Action (Unit {0})
  clean_up disk key (err e) = do drop_object disk key; raise (map_err e)
  clean_up disk key (ok old) =
      if not (is_empty old) && not (text_eq old key) then drop_object disk old else pure tt

  unfoldable pub store_image : Disk → Text → Uuid → Upload → Action Text
  store_image disk reason tenant file =
      map_error (λ e. bad_request reason)
        (put_object env disk tenant (codes "products") file.filename file.content_type file.bytes)

  -- once the new key is set on the product, or could not be
  unfoldable pub settle_image : Disk → Uuid → Uuid → Text → Result Text → Action Product
  unfolding clean_up
  settle_image disk tenant id key old = do clean_up disk key old; Catalog.get_product env tenant id

  unfoldable pub replace_image : Disk → Text → Uuid → Uuid → Upload → Action Product
  unfolding settle_image store_image
  replace_image disk reason tenant id file = do
    key ← store_image disk reason tenant file
    old ← try (Repo.set_product_image env tenant id key)
    settle_image disk tenant id key old

  -- `uploadImage`; `reason` is the text of the storage's error
  unfoldable pub upload_image : Disk → Text → Context → Text → Option Upload → Action Product
  unfolding parse_id replace_image
  upload_image disk reason ctx param image = do
    id ← parse_id param
    file ← lift (check_upload image_refusals allowed_image_mime image)
    replace_image disk reason (tid ctx) id file

  unfoldable pub handle_list_categories : (Text → Text → Bool) → Context → Action (List Category)
  handle_list_categories collates ctx = Catalog.list_categories env collates (tid ctx)

  unfoldable pub legacy_categories : (Text → Text → Bool) → Context → Action (List Category × ℕ)
  legacy_categories collates ctx = do
    items ← Catalog.list_categories env collates (tid ctx)
    pure (items, length items)

  unfoldable pub handle_create_category : Context → (name description : Text) → Action Category
  handle_create_category ctx name description =
      Catalog.create_category env (tid ctx) name description

  unfoldable pub handle_update_category :
      Context → (param name description : Text) → Action (Unit {0})
  unfolding parse_id
  handle_update_category ctx param name description = do
    id ← parse_id param
    Catalog.update_category env (tid ctx) id name description

  unfoldable pub handle_delete_category : Context → Text → Action (Unit {0})
  unfolding parse_id
  handle_delete_category ctx param = do
    id ← parse_id param
    Catalog.delete_category env (tid ctx) id
