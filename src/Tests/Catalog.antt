-- ===== src/Tests/Catalog.antt =====
-- The catalogue at concrete inputs, and the helpers of httpx.
use agentic_mudahurus.Shared.{
  Apart, suc, find, some, [], ◌∷◌, ◌≢◌, ◌≡◌, ◌↔◌, refl, Text, codes, text_eq, text_eq_sound,
  to_lower, trim_left,
}
use agentic_mudahurus.Schema.{CouponRow, Product}
use agentic_mudahurus.World.{World, Error, ok, err}
use agentic_mudahurus.Catalog.Slug.{slugify}
use agentic_mudahurus.Catalog.Slug.Laws.{IsSlug, slugify-IsSlug}
use agentic_mudahurus.Catalog.Repo.Keys.{clash}
use agentic_mudahurus.Catalog.Service.{
  validate_product, create_product, update_product, delete_product, delete_category,
}
use agentic_mudahurus.Catalog.Service.Creation.{
  IsValid, IsCreated, validate_product_exact, create_product_outcome,
}
use agentic_mudahurus.Catalog.Service.UniqueSku.{FoldsAscii, sku_uniqueness}
use agentic_mudahurus.Coupons.{Coupon, is_coupon, update, delete, get}
use agentic_mudahurus.Coupons.Edited.{IsCurrent, edited_coupon}
use agentic_mudahurus.Tests.Fixtures.{up, world, product_input}

up-folds : FoldsAscii up
up-folds s r plain plain_r h = text_eq_sound (to_lower (λ c. c) s) (to_lower (λ c. c) r) h

world-Apart : Apart (clash up) world.db.products
unfolding to_lower text_eq
world-Apart = ((refl, tt), (tt, tt))

sku_uniqueness_example :
    Apart (clash up) (create_product up 1 product_input world).1.db.products
    × Apart (clash up) (update_product up 1 40 product_input world).1.db.products
    × Apart (clash up) (delete_product up 1 40 world).1.db.products
    × Apart (clash up) (delete_category up 1 40 world).1.db.products
sku_uniqueness_example =
    sku_uniqueness up (λ k. refl) up-folds 1 40 product_input world
      ((refl, (refl, (refl, tt))), ((refl, (refl, (refl, tt))), tt)) (refl, (refl, (refl, tt)))
      world-Apart

validate_product_exact_example : (validate_product product_input ≡ ok tt) ↔ IsValid product_input
validate_product_exact_example = validate_product_exact product_input

create_product_outcome_example :
    ((p : Product)
      → (create_product up 1 product_input world).0 ≡ ok p
      → IsCreated 1 product_input world.db (create_product up 1 product_input world).1.db p)
    × ((e : Error)
        → (create_product up 1 product_input world).0 ≡ err e
        → (create_product up 1 product_input world).1.db ≡ world.db)
create_product_outcome_example = create_product_outcome up 1 product_input world

slugify-IsSlug_example : IsSlug (slugify (λ c. c) (codes " Teh Tarik (Ais) "))
slugify-IsSlug_example = slugify-IsSlug (λ c. c) (codes " Teh Tarik (Ais) ")

slug_run : slugify (λ c. c) (codes " Teh Tarik (Ais) ") ≡ codes "teh-tarik-ais"
unfolding slugify trim_left
slug_run = refl

abbrev huge_limit : Text → Text
huge_limit name = codes "250"

abbrev raya : CouponRow
raya = record {
  id = 70;
  tenant_id = 1;
  product_id = some 40;
  campaign = codes "Raya";
  description = [];
  expired_date = some 900;
  created_at = 30;
}

abbrev with_coupon : World
with_coupon = record world { db = record world.db { coupons = raya ∷ [] } }

edited_coupon_example :
    ((d : Coupon)
      → (update up raya with_coupon).0 ≡ ok tt
      → (get up 1 70 (update up raya with_coupon).1).0 ≡ ok d
      → (old : CouponRow) × (find (is_coupon 1 70) with_coupon.db.coupons ≡ some old)
        × IsCurrent (up.now (suc (update up raya with_coupon).1.tick)) raya old d)
    × ((d : Coupon)
        → (delete up 1 70 with_coupon).0 ≡ ok tt
        → (get up 1 70 (delete up 1 70 with_coupon).1).0 ≢ ok d)
edited_coupon_example = edited_coupon up raya with_coupon
