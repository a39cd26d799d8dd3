-- ===== src/Enhancements/Trends.antt =====
-- api/internal/enhancements/eh5_recommendations.go, and the queries of module.go behind it. to_char of a month
-- is an argument. The totals of the months are whole sen, none negative by the constraint on an order's total;
-- the code has the float64 next to each.
pub mod Revenue
use agentic_mudahurus.Shared.{
  ℕ, zero, suc, ◌+◌, ◌*◌, Bool, true, false, Option, none, some, List, [], ◌∷◌, ◌++◌, map, not,
  ◌&&◌, ◌||◌, if◌then◌else◌, ltb, leb, ◌==◌, length, select, find, order_by, take, drop, Text,
  codes, text_eq,
}
use agentic_mudahurus.Shared.Int.{ℤ, pos, ◌+ℤ◌, pos_part, ltb_ℤ}
use agentic_mudahurus.Shared.Float64.{round_ratio, of_hundredths, sub, div, le}
use agentic_mudahurus.Schema.{Uuid, Time, payment_accepted, shipped, OrderRow, ProductRow, Db}
use agentic_mudahurus.World.{Env, Action, ok, pure, statement, ◌>>=◌}
use agentic_mudahurus.Tenancy.Identity.{Context, tid}
use agentic_mudahurus.Catalog.Repo.{product_newer}
use agentic_mudahurus.Orders.Status.{status_eq}

pub record SalesPoint : Type 0 where
  pub period : Text
  pub total : ℤ

pub record Insight : Type 0 where
  pub headline : Text
  pub detail : Text

-- a < b on strings
unfoldable pub text_ltb : Text → Text → Bool
text_ltb s [] = false
text_ltb [] (d ∷ t) = true
text_ltb (c ∷ s) (d ∷ t) = ltb c d || c == d && text_ltb s t

abbrev pub not_after : SalesPoint → SalesPoint → Bool
not_after p q = not (text_ltb q.period p.period)

-- `change <= -0.2`, for change = (cur - prev) / prev with prev > 0
unfoldable pub fell : ℤ → ℤ → Bool
unfolding of_hundredths round_ratio sub div
fell prev cur =
    let p = of_hundredths (pos_part prev) in
    let c = of_hundredths (pos_part cur) in le c p && le (round_ratio 1 5) (div (sub p c) p)

-- `change >= 0.2`
unfoldable pub rose : ℤ → ℤ → Bool
unfolding of_hundredths round_ratio sub div
rose prev cur =
    let p = of_hundredths (pos_part prev) in
    let c = of_hundredths (pos_part cur) in le p c && le (round_ratio 1 5) (div (sub c p) p)

unfoldable pub compare_periods : SalesPoint → SalesPoint → List Insight
unfolding fell rose
compare_periods prev cur =
    if ltb_ℤ (pos 0) prev.total
    then if fell prev.total cur.total
      then record {
        headline = codes "Sales dropped";
        detail =
            codes
              "Revenue fell materially vs the previous period; investigate top SKUs and pending orders.";
      }
        ∷ []
      else if rose prev.total cur.total
      then record {
        headline = codes "Sales up";
        detail = codes "Revenue grew vs the previous period.";
      }
        ∷ []
      else []
    else []

unfoldable pub last_two : List SalesPoint → List Insight
unfolding compare_periods
last_two [] = []
last_two (p ∷ []) = []
last_two (p ∷ q ∷ []) = compare_periods p q
last_two (p ∷ q ∷ r ∷ ps) = last_two (q ∷ r ∷ ps)

-- `AnalyzeTrend`
unfoldable pub analyze_trend : List SalesPoint → List Insight
unfolding last_two text_ltb
analyze_trend points = last_two (order_by not_after points)

-- ---- analyticsInsights ----

-- status IN ('payment_accepted','shipped')
abbrev pub is_sale : Uuid → OrderRow → Bool
is_sale tenant o =
    o.tenant_id == tenant && (status_eq o.status payment_accepted || status_eq o.status shipped)

-- GROUP BY 1 ORDER BY 1: a sale joins the point of its month
unfoldable pub add_sale : Text → ℤ → List SalesPoint → List SalesPoint
unfolding text_ltb
add_sale month amount [] = record { period = month; total = amount } ∷ []
add_sale month amount (p ∷ ps) =
    let rest = add_sale month amount ps in
    if text_eq p.period month
    then record p { total = p.total +ℤ amount } ∷ ps
    else if text_ltb month p.period
    then record { period = month; total = amount } ∷ p ∷ ps
    else p ∷ rest

module _ (month_of : Time → Text) where
  unfoldable pub group_sales : List OrderRow → List SalesPoint
  unfolding add_sale
  group_sales [] = []
  group_sales (o ∷ os) = add_sale (month_of o.created_at) o.total_price (group_sales os)

  -- `analyticsInsights`
  unfoldable pub analytics_insights : Env → Context → Action (List SalesPoint × List Insight)
  unfolding group_sales analyze_trend
  analytics_insights env ctx = do
    series ← statement env (λ k db. (ok (group_sales (select (is_sale (tid ctx)) db.orders)), db))
    pure (series, analyze_trend series)

-- ---- recommendations ----

pub record Recommendation : Type 0 where
  pub id : Uuid
  pub sku : Text
  pub product_name : Text
  pub unit_price : ℤ

abbrev recommended : ProductRow → Recommendation
recommended p = record {
  id = p.id;
  sku = p.sku;
  product_name = p.product_name;
  unit_price = p.unit_price;
}

abbrev pub active_of : Uuid → ProductRow → Bool
active_of tenant p = p.tenant_id == tenant && text_eq p.status (codes "active")

-- a IS NOT DISTINCT FROM b
unfoldable pub not_distinct : Option Uuid → Option Uuid → Bool
not_distinct none none = true
not_distinct (some a) (some b) = a == b
not_distinct _ _ = false

-- SELECT category_id FROM products WHERE id = $2, of whatever tenant
category_of : Option ProductRow → Option Uuid
category_of none = none
category_of (some p) = p.category_id

unfoldable pub recommended_with : Uuid → Option Uuid → Db → ProductRow → Bool
unfolding not_distinct category_of
recommended_with tenant none db p = active_of tenant p
recommended_with tenant (some pid) db p =
    active_of tenant p
    && not (p.id == pid)
    && not_distinct p.category_id (category_of (find (λ q. q.id == pid) db.products))

-- `recommendations`, with the query parameter `product_id`
unfoldable pub recommendations : Env → Context → Text → Action (List Recommendation)
unfolding recommended_with
recommendations env ctx product_id = statement env λ k db. (
  ok (
      map recommended (
        take 5 (
          order_by product_newer
            (select (recommended_with (tid ctx) (env.parse_uuid product_id) db) db.products)))),
  db,
)
