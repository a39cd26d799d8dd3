-- ===== src/Tests/Fixtures.antt =====
-- A small world: two sellers, a category, two products and two orders; and functions in the place of
-- what lies outside the program.
use agentic_mudahurus.Shared.{
  ◌+◌, true, false, Option, none, some, [], ◌∷◌, ◌++◌, Text, codes, text_eq, to_lower, contains,
}
use agentic_mudahurus.Shared.Int.{pos, negsuc}
use agentic_mudahurus.Schema.{
  Uuid, Tenant, RefreshToken, AuthToken, reset_password, ProductRow, pending, ShippingAddress,
  OrderRow, PaymentRow, submitted, Db, empty_db,
}
use agentic_mudahurus.World.{World, Env}
use agentic_mudahurus.Catalog.Service.{ProductInput}
use agentic_mudahurus.Orders.Service.{AdminInput}

-- The database answers, the clock ticks, and random UUIDs count up from 1000.
abbrev pub up : Env
up = record {
  fails = λ k. false;
  now = λ k. 1000000 + k;
  uuid = λ k. 1000 + k;
  signed_get_url = λ k key ttl. some (codes "https://files/" ++ key);
  lower = to_lower (λ c. c);
  ilike = λ value words. contains value words;
  parse_uuid = parsed;
  uuid_string = λ id. id ∷ [];
  lower_rune = λ c. c;
  equal_fold = λ s t. text_eq (to_lower (λ c. c) s) (to_lower (λ c. c) t);
}
  where
    parsed : Text → Option Uuid
    parsed [] = none
    parsed (id ∷ s) = some id

abbrev pub seller : Uuid → Text → Tenant
seller id name = record {
  id = id;
  username = name;
  email = name ++ codes "@shop.my";
  password_hash = [];
  role = codes "seller";
  full_name = name;
  store_name = name;
  phone = [];
  email_verified = true;
  created_at = 5;
}

abbrev pub product : Uuid → Uuid → Text → ProductRow
product id tenant sku = record {
  id = id;
  tenant_id = tenant;
  category_id = some 30;
  sku = sku;
  product_name = codes "Kopi";
  description = [];
  unit_price = pos 1250;
  url_slug = codes "kopi";
  image_key = [];
  status = codes "active";
  created_at = 10;
}

abbrev pub home : ShippingAddress
home = record {
  mailing_addr = codes "1 Jalan";
  mailing_addr2 = [];
  city = codes "KL";
  postcode = codes "50000";
  state = [];
}

abbrev pub order : Uuid → Uuid → OrderRow
order id tenant = record {
  id = id;
  tenant_id = tenant;
  customer_id = none;
  status = pending;
  full_name = codes "Ali";
  email = [];
  contact_no = codes "012";
  shipping_address = home;
  additional_notes = [];
  total_price = pos 2500;
  expired_date = 900;
  created_at = 20;
}

abbrev pub payment : PaymentRow
payment = record {
  id = 60;
  order_id = 50;
  proof_key = codes "p/60.png";
  amount = pos 2500;
  status = submitted;
  created_at = 25;
}

abbrev pub refresh_token : RefreshToken
refresh_token = record {
  tenant_id = 1;
  token_hash = codes "r1";
  expires_at = 2000000;
  revoked_at = none;
}

abbrev pub reset_token : AuthToken
reset_token = record {
  tenant_id = 1;
  purpose = reset_password;
  token_hash = codes "t1";
  expires_at = 2000000;
  used_at = none;
}

abbrev pub db : Db
db = record empty_db {
  tenants = seller 1 (codes "aminah") ∷ seller 2 (codes "budi") ∷ [];
  refresh_tokens = refresh_token ∷ [];
  auth_tokens = reset_token ∷ [];
  categories =
      record { id = 30; tenant_id = 1; name = codes "Minuman"; description = []; created_at = 6 }
      ∷ [];
  products = product 40 1 (codes "K-1") ∷ product 41 2 (codes "K-1") ∷ [];
  orders = order 50 1 ∷ order 51 2 ∷ [];
  payments = payment ∷ [];
}

abbrev pub world : World
world = record { db = db; tick = 0; events = []; mails = []; files = [] }

abbrev pub product_input : ProductInput
product_input = record {
  category_id = [];
  sku = codes "T-2";
  product_name = codes "Teh Tarik";
  description = [];
  unit_price = pos 300;
  url_slug = [];
  status = [];
}

abbrev pub order_input : AdminInput
order_input = record {
  full_name = codes "Siti";
  email = [];
  contact_no = codes "013";
  shipping_address = home;
  additional_notes = [];
  items =
      record { sku = codes "k-1"; quantity = pos 2; unit_price = pos 0 }
      ∷ record { sku = codes "gift"; quantity = negsuc 4; unit_price = pos 100 }
      ∷ [];
}
