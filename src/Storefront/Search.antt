-- ===== src/Storefront/Search.antt =====
-- What the search of a store lists.
use agentic_mudahurus.Shared.{
  ℕ, ◌≤◌, ◌≡◌, refl, sym, subst, ◌∙◌, ap, Bool, true, some, List, [], map, arith, All, All-take,
  All-drop, length, length-take, take-map, drop-map, take, drop, select, order_by, find, Text,
}
use agentic_mudahurus.Shared.Int.{ℤ, pos, pos_part, ◌≤ℤ◌}
use agentic_mudahurus.Shared.Decimal.{atoi_value}
use agentic_mudahurus.Schema.{Uuid, Tenant, ProductRow, Product, Db}
use agentic_mudahurus.World.{Env, World, ok, statement, limit_offset}
use agentic_mudahurus.World.Inversion.{chain-ok, query-ok, limit_offset-ok}
use agentic_mudahurus.Auth.Store.{has_username}
use agentic_mudahurus.Catalog.Repo.{scan_product}
use agentic_mudahurus.Storefront.{
  StoreProduct, resolve_tenant, store_product, on_sale, search_limit, ranked_rows, ranked_before,
  found_by, search_store,
}
use agentic_mudahurus.Storefront.Shown.{
  unsigned, scanned-products, resolved, Preserves-resolve_tenant, IsShown, IsShown-rows,
  on_sale_rows,
}

small_limit : (x : ℤ) → pos_part (search_limit x) ≤ 100
small_limit x = ground arith

found_by-on_sale :
    (env : Env) (text_match : Text → ProductRow → Bool) (rank : Text → ProductRow → ℕ) (t : Uuid)
    (words : Text) (p : ProductRow)
    → found_by env text_match rank t words p ≡ true
    → on_sale t p ≡ true
found_by-on_sale env text_match rank t words p h = ground arith

-- A page of the rows that a search finds, once it is scanned.
page-IsShown :
    (env : Env) (text_match : Text → ProductRow → Bool) (rank : Text → ProductRow → ℕ) (t : Uuid)
    (words : Text) (limit offset : ℤ) (db : Db) (rows : List Product) (ss : List StoreProduct)
    → limit_offset limit offset (ranked_rows env text_match rank t words db) ≡ ok rows
    → map unsigned ss ≡ map (λ p. store_product p []) rows
    → All (IsShown t db) ss × (length ss ≤ pos_part limit) × (pos 0 ≤ℤ offset)
page-IsShown env text_match rank t words limit offset db rows ss paged scanned =
    let best =
      order_by (ranked_before env text_match rank words)
        (select (found_by env text_match rank t words) db.products) in
    let n = pos_part limit in
    let m = pos_part offset in
    let (start, cut) = limit_offset-ok limit offset (map (scan_product db) best) rows paged in
    let e_page : rows ≡ map (scan_product db) (take n (drop m best)) =
      sym cut
      ∙ ap (take n) (drop-map (scan_product db) m best)
      ∙ take-map (scan_product db) n (drop m best) in
    let sold =
      on_sale_rows t (found_by env text_match rank t words)
        (ranked_before env text_match rank words) db
        (found_by-on_sale env text_match rank t words) in
    let (all, count) =
      IsShown-rows t db (take n (drop m best)) ss
        (All-take _ n (drop m best) (All-drop _ m best sold))
        (scanned ∙ ap (λ ps. map (λ p. store_product p []) ps) e_page) in
    (all, omega (arith, count, length-take n (drop m best)), start)

-- The search of a store. If it answers, every product that it lists is one of the active products of the
-- seller with the user name asked for; there are at most 100 of them; and the offset asked for is
-- not negative: a search from a negative offset never answers.
pub search-IsShown :
    (env : Env) (text_match : Text → ProductRow → Bool) (rank : Text → ProductRow → ℕ)
    (username words limit offset : Text) (w : World) (ss : List StoreProduct)
    → (search_store env text_match rank username words limit offset w).0 ≡ ok ss
    → (t : Tenant) × (find (has_username env username) w.db.tenants ≡ some t)
      × All (IsShown t.id w.db) ss
      × (length ss ≤ 100)
      × (pos 0 ≤ℤ atoi_value offset)
unfolding search_store
search-IsShown env text_match rank username words limit offset w ss h =
    let (t, found, e1) = chain-ok (resolve_tenant env username) _ w ss refl h in
    let w1 = (resolve_tenant env username w).1 in
    let same : w1.db ≡ w.db =
      (Preserves-resolve_tenant {P = λ db. db ≡ w.db} env username).holds w refl in
    let asked = search_limit (atoi_value limit) in
    let page = λ (db : Db).
      limit_offset asked (atoi_value offset) (ranked_rows env text_match rank t.id words db) in
    let (rows, read, e2) = chain-ok (statement env (λ k db. (page db, db))) _ w1 ss e1 h in
    let w2 = (statement env (λ k db. (page db, db)) w1).1 in
    let (all, count, start) =
      page-IsShown env text_match rank t.id words asked (atoi_value offset) w1.db rows ss
        (query-ok env page w1 rows read)
        (scanned-products env rows w2 ss (ap (λ s. s.0) (sym e2) ∙ h)) in
    (
      t,
      resolved env username w t found,
      subst (λ db. All (IsShown t.id db) ss) same all,
      omega (arith, count, small_limit (atoi_value limit)),
      start,
    )
