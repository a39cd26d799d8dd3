-- ===== src/Customers.antt =====
-- api/internal/customers/customers.go, with the constraints of migrations/000004_customers_coupons.up.sql.
-- The handlers stand behind the decoding of JSON; time.Parse with the layout 2006-01-02 is an argument.
pub mod Codes
pub mod Creation
pub mod Blocked
use agentic_mudahurus.Shared.{
  ℕ, Bool, true, false, Option, none, some, List, [], ◌∷◌, ◌++◌, map, not, ◌&&◌, ◌||◌,
  if◌then◌else◌, leb, ◌==◌, any, length, take, select, find, update_where, delete_where, order_by,
  Text, codes, text_eq, is_empty,
}
use agentic_mudahurus.Shared.Int.{ℤ}
use agentic_mudahurus.Schema.{Uuid, Time, OrderRow, Customer, Db}
use agentic_mudahurus.World.{
  Error, not_found, failure, api, Result, ok, err, World, Env, Action, statement, require, lift,
  map_error, pure, try, ◌>>=◌, ◌>>◌, limit_offset, affected, inserted,
}
use agentic_mudahurus.Httpx.Errors.{bad_request, missing}
use agentic_mudahurus.Httpx.Validation.{new_validator, require_field, verdict}
use agentic_mudahurus.Httpx.Paging.{Page}
use agentic_mudahurus.Tenancy.Identity.{Context, tid}
use agentic_mudahurus.Catalog.Repo.{has_tenant}

-- ---- Repo ----

-- UNIQUE (tenant_id, customer_loyalty_code), which the empty code takes part in
abbrev pub same_code : Uuid → Text → Customer → Bool
same_code tenant code c = c.tenant_id == tenant && text_eq c.loyalty_code code

abbrev pub code_free : Db → Uuid → Text → Bool
code_free db tenant code = not (any (same_code tenant code) db.customers)

unfoldable pub create : Env → Customer → Action Customer
create env c = statement env λ k db.
    let d : Customer = record c { id = env.uuid k; created_at = env.now k } in
    inserted
      (not (any (λ x. x.id == d.id) db.customers)
        && has_tenant db d.tenant_id
        && code_free db d.tenant_id d.loyalty_code)
      d (record db { customers = db.customers ++ d ∷ [] }) db

-- WHERE id=$1 AND tenant_id=$2
abbrev pub is_customer : Uuid → Uuid → Customer → Bool
is_customer tenant id c = c.id == id && c.tenant_id == tenant

abbrev pub with_columns : Customer → Customer → Customer
with_columns c d = record c { id = d.id; tenant_id = d.tenant_id; created_at = d.created_at }

-- another row of the tenant with the code
abbrev pub other_has : Uuid → Uuid → Text → Customer → Bool
other_has tenant id code x = not (x.id == id) && same_code tenant code x

unfoldable pub update : Env → Customer → Action (Unit {0})
update env c = statement env λ k db.
    affected (any (is_customer c.tenant_id c.id) db.customers)
      (not (any (other_has c.tenant_id c.id c.loyalty_code) db.customers)) tt
      (record db {
        customers = update_where (is_customer c.tenant_id c.id) (with_columns c) db.customers;
      })
      db

-- orders.customer_id … ON DELETE SET NULL
abbrev is_customer_of : Uuid → Option Uuid → Bool
is_customer_of id none = false
is_customer_of id (some c) = c == id

abbrev pub forget_customer : Uuid → OrderRow → OrderRow
forget_customer id o =
    if is_customer_of id o.customer_id then record o { customer_id = none } else o

unfoldable pub delete : Env → Uuid → Uuid → Action (Unit {0})
delete env tenant id = statement env λ k db.
    affected (any (is_customer tenant id) db.customers) true tt
      (record db {
        customers = delete_where (is_customer tenant id) db.customers;
        orders = map (forget_customer id) db.orders;
      })
      db

-- The columns that the queries read do not have the tenant.
abbrev pub scanned : Customer → Customer
scanned c = record c { tenant_id = 0 }

unfoldable pub get : Env → Uuid → Uuid → Action Customer
get env tenant id = do
  found ← statement env (λ k db. (ok (find (is_customer tenant id) db.customers), db))
  c ← require found not_found
  pure (scanned c)

unfoldable pub get_by_loyalty : Env → Uuid → Text → Action Customer
get_by_loyalty env tenant code = do
  found ← statement env (λ k db. (ok (find (same_code tenant code) db.customers), db))
  c ← require found not_found
  pure (scanned c)

abbrev pub customer_matches : Env → Uuid → Text → Customer → Bool
customer_matches env tenant words c =
    c.tenant_id == tenant
    && (is_empty words
        || env.ilike c.full_name words
        || env.ilike c.email words
        || env.ilike c.loyalty_code words
        || env.ilike c.contact_no words)

abbrev customer_newer : Customer → Customer → Bool
customer_newer c d = leb d.created_at c.created_at

unfoldable pub list : Env → Uuid → Text → ℤ → ℤ → Action (List Customer × ℕ)
list env tenant words limit offset = do
  total ←
      statement env
        (λ k db. (ok (length (select (customer_matches env tenant words) db.customers)), db))
  rows ← statement env λ k db. (
    limit_offset limit offset
        (order_by customer_newer (select (customer_matches env tenant words) db.customers)),
    db,
  )
  pure (map scanned rows, total)

-- ---- handlers ----

-- `mapErr`
unfoldable pub map_err : Error → Error
map_err not_found = missing (codes "customer not found")
map_err failure = failure
map_err (api e) = api e

pub record Input : Type 0 where
  pub full_name : Text
  pub ic_no : Text
  pub dob : Text
  pub email : Text
  pub contact_no : Text
  pub mailing_addr : Text
  pub city : Text
  pub postcode : Text
  pub state : Text
  pub loyalty_code : Text
  pub type : Text

module _ (env : Env) where
  -- uuid.Parse(c.Param("id"))
  abbrev pub path_id : Text → Action Uuid
  path_id s = require (env.parse_uuid s) (bad_request (codes "invalid id"))

  unfoldable pub handle_list : Context → Page → Action (List Customer × ℕ)
  handle_list ctx p = list env (tid ctx) p.search p.limit p.offset

  -- cust.ID.String()[:8]
  abbrev pub default_code : Customer → Text
  default_code c = take 8 (env.uuid_string c.id)

  -- The error of the second statement is dropped.
  unfoldable pub put_code : Customer → Action Customer
  put_code c = do
    outcome ← try (update env (record c { loyalty_code = default_code c }))
    pure (record c { loyalty_code = default_code c })

  unfoldable pub assign_code : Customer → Action Customer
  unfolding put_code
  assign_code c = if is_empty c.loyalty_code then put_code c else pure c

  unfoldable pub handle_get : Context → Text → Action Customer
  handle_get ctx param = do id ← path_id param; map_error map_err (get env (tid ctx) id)

  unfoldable pub handle_by_loyalty : Context → Text → Action Customer
  handle_by_loyalty ctx code = map_error map_err (get_by_loyalty env (tid ctx) code)

  unfoldable pub handle_delete : Context → Text → Action (Unit {0})
  handle_delete ctx param = do id ← path_id param; map_error map_err (delete env (tid ctx) id)

module _ (parse_date : Text → Option Time) where
  abbrev pub bound : Input → Customer
  bound input = record {
    id = 0;
    tenant_id = 0;
    full_name = input.full_name;
    ic_no = input.ic_no;
    dob = if is_empty input.dob then none else parse_date input.dob;
    email = input.email;
    contact_no = input.contact_no;
    mailing_addr = input.mailing_addr;
    city = input.city;
    postcode = input.postcode;
    state = input.state;
    loyalty_code = input.loyalty_code;
    type = if is_empty input.type then codes "regular" else input.type;
    created_at = 0;
  }

  -- `bind`, once the body is decoded
  unfoldable pub bind : Input → Action Customer
  bind input = do
    lift (verdict (require_field (codes "full_name") input.full_name new_validator))
    pure (bound input)

  module _ (env : Env) where
    unfoldable pub handle_create : Context → Input → Action Customer
    unfolding bind assign_code
    handle_create ctx input = do
      c ← bind input
      created ← create env (record c { tenant_id = tid ctx })
      assign_code env created

    unfoldable pub handle_update : Context → Text → Input → Action Customer
    unfolding bind
    handle_update ctx param input = do
      id ← path_id env param
      c ← bind input
      map_error map_err (update env (record c { id = id; tenant_id = tid ctx }))
      pure (record c { id = id; tenant_id = tid ctx })
