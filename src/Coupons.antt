-- ===== src/Coupons.antt =====
-- api/internal/coupons/coupons.go, with the constraints of migrations/000004_customers_coupons.up.sql.
-- The handlers stand behind the decoding of JSON; time.Parse is an argument.
pub mod Edited
use agentic_mudahurus.Shared.{
  ℕ, Bool, true, false, Option, none, some, List, [], ◌∷◌, ◌++◌, map, not, ◌&&◌, ◌||◌,
  if◌then◌else◌, ltb, leb, ◌==◌, any, length, select, find, update_where, delete_where, order_by,
  Text, codes, is_empty,
}
use agentic_mudahurus.Shared.Int.{ℤ}
use agentic_mudahurus.Schema.{Uuid, Time, CouponRow, Db}
use agentic_mudahurus.World.{
  Error, not_found, failure, api, Result, ok, err, World, Env, Action, statement, require, lift,
  map_error, pure, time_now, ◌>>=◌, ◌>>◌, limit_offset, affected, inserted, refers,
}
use agentic_mudahurus.Httpx.Errors.{bad_request, missing}
use agentic_mudahurus.Httpx.Validation.{new_validator, require_field, verdict}
use agentic_mudahurus.Httpx.Paging.{Page}
use agentic_mudahurus.Tenancy.Identity.{Context, tid}
use agentic_mudahurus.Catalog.Repo.{has_tenant}

pub record Coupon : Type 0 where
  pub row : CouponRow
  pub open row use *
  pub expired : Bool

-- ---- Repo ----

coupon_fits : Db → CouponRow → Bool
coupon_fits db c = refers (λ p. any (λ x. x.id == p) db.products) c.product_id

unfoldable pub create : Env → CouponRow → Action CouponRow
unfolding coupon_fits
create env c = statement env λ k db.
    let d : CouponRow = record c { id = env.uuid k; created_at = env.now k } in
    inserted
      (not (any (λ x. x.id == d.id) db.coupons) && has_tenant db d.tenant_id && coupon_fits db d) d
      (record db { coupons = db.coupons ++ d ∷ [] }) db

-- WHERE id=$1 AND tenant_id=$2
abbrev pub is_coupon : Uuid → Uuid → CouponRow → Bool
is_coupon tenant id c = c.id == id && c.tenant_id == tenant

abbrev pub with_columns : CouponRow → CouponRow → CouponRow
with_columns c d = record d {
  product_id = c.product_id;
  campaign = c.campaign;
  description = c.description;
  expired_date = c.expired_date;
}

unfoldable pub update : Env → CouponRow → Action (Unit {0})
unfolding coupon_fits
update env c = statement env λ k db.
    affected (any (is_coupon c.tenant_id c.id) db.coupons) (coupon_fits db c) tt
      (record db {
        coupons = update_where (is_coupon c.tenant_id c.id) (with_columns c) db.coupons;
      })
      db

unfoldable pub delete : Env → Uuid → Uuid → Action (Unit {0})
delete env tenant id = statement env λ k db.
    affected (any (is_coupon tenant id) db.coupons) true tt
      (record db { coupons = delete_where (is_coupon tenant id) db.coupons }) db

-- c.ExpiredDate != nil && c.ExpiredDate.Before(now)
abbrev pub is_past : Time → Option Time → Bool
is_past now none = false
is_past now (some date) = ltb date now

-- The queries do not read the tenant.
abbrev pub scanned : Time → CouponRow → Coupon
scanned now c = record { row = record c { tenant_id = 0 }; expired = is_past now c.expired_date }

unfoldable pub get : Env → Uuid → Uuid → Action Coupon
get env tenant id = do
  found ← statement env (λ k db. (ok (find (is_coupon tenant id) db.coupons), db))
  c ← require found not_found
  now ← time_now env
  pure (scanned now c)

abbrev pub coupon_matches : Env → Uuid → Text → CouponRow → Bool
coupon_matches env tenant words c =
    c.tenant_id == tenant
    && (is_empty words || env.ilike c.campaign words || env.ilike c.description words)

abbrev coupon_newer : CouponRow → CouponRow → Bool
coupon_newer c d = leb d.created_at c.created_at

unfoldable pub list : Env → Uuid → Text → ℤ → ℤ → Action (List Coupon × ℕ)
list env tenant words limit offset = do
  total ←
      statement env
        (λ k db. (ok (length (select (coupon_matches env tenant words) db.coupons)), db))
  rows ← statement env λ k db. (
    limit_offset limit offset
        (order_by coupon_newer (select (coupon_matches env tenant words) db.coupons)),
    db,
  )
  now ← time_now env
  pure (map (scanned now) rows, total)

-- ---- handlers ----

-- `mapErr`
unfoldable pub map_err : Error → Error
map_err not_found = missing (codes "coupon not found")
map_err failure = failure
map_err (api e) = api e

pub record Input : Type 0 where
  pub product_id : Text
  pub campaign : Text
  pub description : Text
  pub expired_date : Text

abbrev parsed_id : Option Uuid → Result (Option Uuid)
parsed_id none = err (bad_request (codes "invalid product_id"))
parsed_id (some id) = ok (some id)

-- the first layout that parses; a date that none parses is left out
first_parsed : (Text → Text → Option Time) → Text → List Text → Option Time
first_parsed parse_time s [] = none
first_parsed parse_time s (layout ∷ layouts) = elim (parse_time layout s) [
  | some t ↦ some t
  | none ↦ first_parsed parse_time s layouts
]

abbrev layouts : List Text
layouts = codes "2006-01-02T15:04:05Z07:00" ∷ codes "2006-01-02" ∷ codes "2006-01-02 15:04:05" ∷ []

module _ (env : Env) (parse_time : Text → Text → Option Time) where
  -- `bind`, once the body is decoded
  unfoldable pub bind : Input → Action CouponRow
  unfolding first_parsed
  bind input = do
    lift (verdict (require_field (codes "campaign") input.campaign new_validator))
    product ←
        lift (
          if is_empty input.product_id
          then ok none
          else parsed_id (env.parse_uuid input.product_id))
    pure (record {
      id = 0;
      tenant_id = 0;
      product_id = product;
      campaign = input.campaign;
      description = input.description;
      expired_date =
          if is_empty input.expired_date
          then none
          else first_parsed parse_time input.expired_date layouts;
      created_at = 0;
    })

  -- uuid.Parse(c.Param("id"))
  abbrev path_id : Text → Action Uuid
  path_id s = require (env.parse_uuid s) (bad_request (codes "invalid id"))

  unfoldable pub handle_list : Context → Page → Action (List Coupon × ℕ)
  handle_list ctx p = list env (tid ctx) p.search p.limit p.offset

  unfoldable pub handle_create : Context → Input → Action CouponRow
  unfolding bind
  handle_create ctx input = do c ← bind input; create env (record c { tenant_id = tid ctx })

  unfoldable pub handle_get : Context → Text → Action Coupon
  handle_get ctx param = do id ← path_id param; map_error map_err (get env (tid ctx) id)

  unfoldable pub handle_update : Context → Text → Input → Action CouponRow
  unfolding bind
  handle_update ctx param input = do
    id ← path_id param
    c ← bind input
    map_error map_err (update env (record c { id = id; tenant_id = tid ctx }))
    pure (record c { id = id; tenant_id = tid ctx })

  unfoldable pub handle_delete : Context → Text → Action (Unit {0})
  handle_delete ctx param = do id ← path_id param; map_error map_err (delete env (tid ctx) id)
