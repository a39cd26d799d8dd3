-- ===== src/Schema.antt =====
-- The rows of the database (api/internal/db/migrations) and the structs that hold them in Go.
-- A UUID is a number, of which the program only tests equality and order; uuid.Nil is 0. Times are
-- seconds. Amounts of money are whole sen: NUMERIC(12,2) in the database, exact in float64.
use agentic_mudahurus.Shared.{ℕ, Bool, Option, List, []}
use agentic_mudahurus.Shared.{Text}
use agentic_mudahurus.Shared.Int.{ℤ}

abbrev pub Uuid : Type 0
Uuid = ℕ

abbrev pub Time : Type 0
Time = ℕ

-- auth/store.go
pub record Tenant : Type 0 where
  pub id : Uuid
  pub username : Text
  pub email : Text
  pub password_hash : Text
  pub role : Text
  pub full_name : Text
  pub store_name : Text
  pub phone : Text
  pub email_verified : Bool
  pub created_at : Time

pub record RefreshToken : Type 0 where
  pub tenant_id : Uuid
  pub token_hash : Text
  pub expires_at : Time
  pub revoked_at : Option Time

pub data Purpose : Type 0 where
  verify_email reset_password : Purpose

pub record AuthToken : Type 0 where
  pub tenant_id : Uuid
  pub purpose : Purpose
  pub token_hash : Text
  pub expires_at : Time
  pub used_at : Option Time

-- catalog/repo.go
pub record Category : Type 0 where
  pub id : Uuid
  pub tenant_id : Uuid
  pub name : Text
  pub description : Text
  pub created_at : Time

pub record ProductRow : Type 0 where
  pub id : Uuid
  pub tenant_id : Uuid
  pub category_id : Option Uuid
  pub sku : Text
  pub product_name : Text
  pub description : Text
  pub unit_price : ℤ
  pub url_slug : Text
  pub image_key : Text
  pub status : Text
  pub created_at : Time

-- The struct adds what a query joins and what the service signs.
pub record Product : Type 0 where
  pub row : ProductRow
  pub open row use *
  pub category_name : Text
  pub image_url : Text

-- orders/repo.go
pub data Status : Type 0 where
  pending payment_received payment_accepted shipped expired cancelled rejected : Status
  -- any other string that a client sends
  other : Text → Status

pub record ShippingAddress : Type 0 where
  pub mailing_addr : Text
  pub mailing_addr2 : Text
  pub city : Text
  pub postcode : Text
  pub state : Text

pub record OrderRow : Type 0 where
  pub id : Uuid
  pub tenant_id : Uuid
  pub customer_id : Option Uuid
  pub status : Status
  pub full_name : Text
  pub email : Text
  pub contact_no : Text
  pub shipping_address : ShippingAddress
  pub additional_notes : Text
  pub total_price : ℤ
  pub expired_date : Time
  pub created_at : Time

pub record OrderItem : Type 0 where
  pub id : Uuid
  pub order_id : Uuid
  pub product_id : Option Uuid
  pub sku : Text
  pub product_name : Text
  pub quantity : ℤ
  pub unit_price : ℤ
  pub line_total : ℤ

pub data PaymentStatus : Type 0 where
  submitted verified rejected : PaymentStatus

pub record PaymentRow : Type 0 where
  pub id : Uuid
  pub order_id : Uuid
  pub proof_key : Text
  pub amount : ℤ
  pub status : PaymentStatus
  pub created_at : Time

pub record Payment : Type 0 where
  pub row : PaymentRow
  pub open row use *
  pub proof_url : Text

pub record Order : Type 0 where
  pub row : OrderRow
  pub open row use *
  pub items : List OrderItem
  pub payments : List Payment

-- customers/customers.go
pub record Customer : Type 0 where
  pub id : Uuid
  pub tenant_id : Uuid
  pub full_name : Text
  pub ic_no : Text
  pub dob : Option Time
  pub email : Text
  pub contact_no : Text
  pub mailing_addr : Text
  pub city : Text
  pub postcode : Text
  pub state : Text
  pub loyalty_code : Text
  pub type : Text
  pub created_at : Time

-- coupons/coupons.go; `Expired` is computed when a row is read
pub record CouponRow : Type 0 where
  pub id : Uuid
  pub tenant_id : Uuid
  pub product_id : Option Uuid
  pub campaign : Text
  pub description : Text
  pub expired_date : Option Time
  pub created_at : Time

pub record Db : Type 0 where
  pub tenants : List Tenant
  pub refresh_tokens : List RefreshToken
  pub auth_tokens : List AuthToken
  pub categories : List Category
  pub products : List ProductRow
  pub orders : List OrderRow
  pub order_items : List OrderItem
  pub payments : List PaymentRow
  pub customers : List Customer
  pub coupons : List CouponRow

abbrev pub empty_db : Db
empty_db = record {
  tenants = [];
  refresh_tokens = [];
  auth_tokens = [];
  categories = [];
  products = [];
  orders = [];
  order_items = [];
  payments = [];
  customers = [];
  coupons = [];
}
