-- ===== src/Tests/Customers.antt =====
-- Customers at concrete inputs.
use agentic_mudahurus.Shared.{
  ◌≡◌, refl, Option, none, some, [], ◌∷◌, Text, codes, text_eq, trim_space, trim_left,
}
use agentic_mudahurus.Schema.{Time, Customer}
use agentic_mudahurus.World.{World, err, failure, affected, inserted, ◌>>=◌}
use agentic_mudahurus.Tenancy.Identity.{Context, tid, from}
use agentic_mudahurus.Httpx.Validation.{is_blank, require_field, verdict}
use agentic_mudahurus.Customers.{Input, bind, create, update, put_code, assign_code, handle_create}
use agentic_mudahurus.Customers.Creation.{IsRegistered, handle_create_outcome}
use agentic_mudahurus.Customers.Blocked.{empty_code_blocks}
use agentic_mudahurus.Tests.Fixtures.{up, world}

abbrev pub siti : Customer
siti = record {
  id = 80;
  tenant_id = 1;
  full_name = codes "Siti";
  ic_no = [];
  dob = none;
  email = codes "siti@mail.my";
  contact_no = codes "013";
  mailing_addr = [];
  city = [];
  postcode = [];
  state = [];
  loyalty_code = [];
  type = codes "regular";
  created_at = 30;
}

abbrev input : Input
input = record {
  full_name = codes "Ali";
  ic_no = [];
  dob = [];
  email = [];
  contact_no = [];
  mailing_addr = [];
  city = [];
  postcode = [];
  state = [];
  loyalty_code = [];
  type = [];
}

abbrev no_date : Text → Option Time
no_date s = none

abbrev aminah : Context
aminah = some (record { tenant_id = 1; role = codes "seller"; username = codes "aminah" })

abbrev with_siti : World
with_siti = record world { db = record world.db { customers = siti ∷ [] } }

abbrev ali : Customer
ali = record siti {
  id = 1000;
  full_name = codes "Ali";
  email = [];
  contact_no = [];
  loyalty_code = 1000 ∷ [];
  created_at = 1000000;
}

handle_create_outcome_example :
    IsRegistered no_date up aminah input world
      (handle_create no_date up aminah input world).1.db
      ali
unfolding handle_create bind create update put_code assign_code ◌>>=◌ require_field verdict is_blank
    trim_space trim_left affected inserted text_eq tid from
handle_create_outcome_example = handle_create_outcome no_date up aminah input world ali refl

empty_code_blocks_example : (handle_create no_date up aminah input with_siti).0 ≡ err failure
unfolding require_field verdict is_blank trim_space trim_left text_eq tid from
empty_code_blocks_example = empty_code_blocks no_date up aminah input with_siti refl refl refl
