-- ===== src/Tests/Storefront.antt =====
-- The public pages of a store at concrete inputs.
use agentic_mudahurus.Shared.{
  ◌≡◌, ◌≤◌, ℕ, true, false, Bool, some, [], ◌∷◌, All, find, length, Text, codes, text_eq,
  trim_space, trim_left, inl, refl, ◌++◌,
}
use agentic_mudahurus.Shared.Int.{pos, ◌≤ℤ◌}
use agentic_mudahurus.Shared.Decimal.{atoi_value}
use agentic_mudahurus.Schema.{Tenant, ProductRow, Order}
use agentic_mudahurus.World.{ok, err, Error, ◌>>=◌}
use agentic_mudahurus.Auth.Store.{has_username}
use agentic_mudahurus.Catalog.Repo.{scan_product}
use agentic_mudahurus.Orders.Service.Creation.{IsCreated}
use agentic_mudahurus.Httpx.Validation.{is_blank}
use agentic_mudahurus.Storefront.{
  StoreProduct, store_product, Landing, landing, search_store, product_detail, product_by_sku,
  Placed, placed, checkout,
}
use agentic_mudahurus.Storefront.Shown.{IsShown}
use agentic_mudahurus.Storefront.Search.{search-IsShown}
use agentic_mudahurus.Storefront.Single.{product-IsShown}
use agentic_mudahurus.Storefront.Checkout.{checkout_outcome}
use agentic_mudahurus.Tests.Fixtures.{up, world, product, order_input}

abbrev kopi : StoreProduct
kopi = store_product (scan_product world.db (product 40 1 (codes "K-1"))) []

abbrev page : Landing
page = record { username = codes "aminah"; store_name = codes "aminah"; products = kopi ∷ [] }

abbrev text_match : Text → ProductRow → Bool
text_match words p = text_eq words p.product_name

abbrev rank : Text → ProductRow → ℕ
rank words p = length words

landed : (landing up (codes "aminah") world).0 ≡ ok page
unfolding landing ◌>>=◌ agentic_mudahurus.Auth.Store.tenant_by_username text_eq
    agentic_mudahurus.Shared.to_lower scan_product
landed = refl

search-IsShown_example :
    (t : Tenant) × (find (has_username up (codes "aminah")) world.db.tenants ≡ some t)
    × All (IsShown t.id world.db) (kopi ∷ [])
    × (length (kopi ∷ []) ≤ 100)
    × (pos 0 ≤ℤ atoi_value (codes "0"))
unfolding search_store ◌>>=◌ agentic_mudahurus.Auth.Store.tenant_by_username text_eq
    agentic_mudahurus.Shared.to_lower agentic_mudahurus.World.limit_offset atoi_value
    agentic_mudahurus.Shared.contains scan_product
search-IsShown_example =
    search-IsShown up text_match rank (codes "aminah") (codes "Kop") (codes "5") (codes "0") world
      (kopi ∷ []) refl

product-IsShown_example :
    (t : Tenant) × (find (has_username up (codes "aminah")) world.db.tenants ≡ some t)
    × IsShown t.id world.db kopi
unfolding product_detail ◌>>=◌ agentic_mudahurus.Auth.Store.tenant_by_username text_eq
    agentic_mudahurus.Shared.to_lower agentic_mudahurus.Storefront.one_product scan_product
product-IsShown_example = product-IsShown up (codes "aminah") (40 ∷ []) world kopi (inl refl)

checkout_outcome_example :
    ((shown : Placed)
      → (checkout up (codes "aminah") order_input world).0 ≡ ok shown
      → (t : Tenant) × (o : Order) × (find (has_username up (codes "aminah")) world.db.tenants
          ≡ some t)
        × (shown ≡ placed up o)
        × (is_blank order_input.contact_no ≡ false)
        × IsCreated up t.id order_input world.db
            (checkout up (codes "aminah") order_input world).1.db
            o)
    × ((e : Error)
        → (checkout up (codes "aminah") order_input world).0 ≡ err e
        → (checkout up (codes "aminah") order_input world).1.db ≡ world.db)
checkout_outcome_example = checkout_outcome up (codes "aminah") order_input world
