-- ===== src/Customers/Creation.antt =====
-- What is stored for a new customer, and what a stored empty loyalty code brings about.
use agentic_mudahurus.Shared.{
  ℕ, suc, if◌then◌else◌, ◌≡◌, refl, sym, ◌∙◌, ap, Bool, true, false, Option, none, some, List, [],
  ◌∷◌, ◌++◌, arith, any, find, take, Text, codes, text_eq_refl, is_empty, inl, inr,
}
use agentic_mudahurus.Schema.{Uuid, Time, Customer, Db}
use agentic_mudahurus.World.{Env, World, ok, pure, Result, lift, ◌>>=◌}
use agentic_mudahurus.World.Inversion.{chain-ok}
use agentic_mudahurus.Httpx.Validation.{new_validator, require_field, verdict}
use agentic_mudahurus.Tenancy.Identity.{Context, tid}
use agentic_mudahurus.Customers
use agentic_mudahurus.Customers.{
  same_code, code_free, is_customer, other_has, with_columns, Input, bound, bind, default_code,
  assign_code, put_code, handle_create,
}
use agentic_mudahurus.Customers.Codes.{
  insert_customer, IsInserted, create-ok, create-tick, is_blocked, assigned-ok,
}

abbrev name_given : Input → Result (Unit {0})
name_given input = verdict (require_field (codes "full_name") input.full_name new_validator)

bind-bound :
    (parse_date : Text → Option Time) (input : Input) (w : World) (c : Customer)
    → (bind parse_date input w).0 ≡ ok c
    → (c ≡ bound parse_date input) × ((bind parse_date input w).1 ≡ w)
unfolding bind lift pure
bind-bound parse_date input w c h =
    let (_, _, e) = chain-ok (lift (name_given input)) _ w c refl h in
    (cc (ap (λ s. s.0) e, h), ap (λ s. s.1) e)

find_last :
    (p : Customer → Bool) (c : Customer) (cs : List Customer)
    → any p cs ≡ false
    → p c ≡ true
    → find p (cs ++ c ∷ []) ≡ some c
find_last p c [] none_before hit = rw hit refl
find_last p c (d ∷ cs) none_before hit = let rest = find_last p c cs in ground arith

-- What a request that created a customer left behind.
pub record IsRegistered (parse_date : Text → Option Time) (env : Env) (ctx : Context)
    (input : Input) (w : World) (after : Db) (c : Customer) : Type 0 where
  pub columns : record c { id = 0; loyalty_code = []; created_at = 0 } ≡ record {
    id = 0;
    tenant_id = tid ctx;
    full_name = input.full_name;
    ic_no = input.ic_no;
    dob = if is_empty input.dob then none else parse_date input.dob;
    email = input.email;
    contact_no = input.contact_no;
    mailing_addr = input.mailing_addr;
    city = input.city;
    postcode = input.postcode;
    state = input.state;
    loyalty_code = [];
    type = if is_empty input.type then codes "regular" else input.type;
    created_at = 0;
  }
  pub given :
      is_empty input.loyalty_code ≡ false
      → (c.loyalty_code ≡ input.loyalty_code)
        × (after ≡ insert_customer c w.db)
        × (find (same_code (tid ctx) c.loyalty_code) after.customers ≡ some c)
  pub assigned :
      is_empty input.loyalty_code ≡ true
      → let code = take 8 (env.uuid_string c.id) in
        (c.loyalty_code ≡ code)
        × (after
            ≡ insert_customer
                (if is_blocked env (suc w.tick) (tid ctx) code w.db.customers
                  then record c { loyalty_code = [] }
                  else c)
                w.db)

own_code : (c : Customer) → same_code c.tenant_id c.loyalty_code c ≡ true
own_code c = let same = text_eq_refl c.loyalty_code in ground arith

nil_code :
    (c d : Customer) {code : Text}
    → is_empty c.loyalty_code ≡ true
    → d ≡ record c { loyalty_code = code }
    → c ≡ record d { loyalty_code = [] }
nil_code c d e same = rw same (ap (λ s. record c { loyalty_code = s }) (nil c.loyalty_code e))
  where
    nil : (s : Text) → is_empty s ≡ true → s ≡ []
    nil [] h = refl
    nil (x ∷ s) h = cc h

module _ (parse_date : Text → Option Time) (env : Env) (ctx : Context) (input : Input) where
  abbrev pub asked : Customer
  asked = record (bound parse_date input) { tenant_id = tid ctx }

  registered :
      (c d : Customer) (w v : World)
      → v.tick ≡ suc w.tick
      → IsInserted asked c w.db v.db
      → (assign_code env c v).0 ≡ ok d
      → IsRegistered parse_date env ctx input w (assign_code env c v).1.db d
  registered c d w v tick i h =
      let key : c.loyalty_code ≡ input.loyalty_code = ap (λ (x : Customer). x.loyalty_code) i.row in
      let owner : c.tenant_id ≡ tid ctx = ap (λ (x : Customer). x.tenant_id) i.row in
      let row = ap (λ (x : Customer). record x { loyalty_code = [] }) i.row in
      elim (assigned-ok env c d w.db v i.tables i.fresh h) [
        | inl (e, same, tables) ↦ record {
          columns = rw same row;
          given = λ full. (
            rw same key,
            rw same tables,
            rw (same, tables, ← owner)
                (find_last (same_code c.tenant_id c.loyalty_code) c w.db.customers i.free
                  (own_code c)),
          );
          assigned = λ empty. absurd (cc (e, key, empty));
        }
        | inr (e, same, tables) ↦
            let number : d.id ≡ c.id = ap (λ (x : Customer). x.id) same in
            let blocked = is_blocked env v.tick c.tenant_id (default_code env c) w.db.customers in
            let left : ℕ → Uuid → Uuid → Db = λ n t id.
              insert_customer
                (if is_blocked env n t (take 8 (env.uuid_string id)) w.db.customers
                  then record d { loyalty_code = [] }
                  else d)
                w.db in
            record {
              columns = rw same row;
              given = λ full. absurd (cc (e, key, full));
              assigned = λ empty. (
                rw number (ap (λ (x : Customer). x.loyalty_code) same),
                tables
                    ∙ ap (λ x. insert_customer (if blocked then x else d) w.db)
                        (nil_code c d e same)
                    ∙ ap (λ n. left n c.tenant_id c.id) tick
                    ∙ ap (λ t. left (suc w.tick) t c.id) owner
                    ∙ ap (left (suc w.tick) (tid ctx)) (sym number),
              );
            }
      ]

-- Creating a customer. If the request returns a customer, its columns are those asked for (the date of birth
-- as it parses, the type regular where none was given), and a code that was given is kept: the table
-- holds the customer behind the rows there were, and the query by its code finds it. Where none was
-- given, the customer shows the first eight characters of its id, and the table holds the customer
-- with that code; but with no code if the second statement failed, by itself or since a customer of
-- the seller had that code, and in no other case.
pub handle_create_outcome :
    (parse_date : Text → Option Time) (env : Env) (ctx : Context) (input : Input) (w : World)
    (c : Customer)
    → (handle_create parse_date env ctx input w).0 ≡ ok c
    → IsRegistered parse_date env ctx input w (handle_create parse_date env ctx input w).1.db c
unfolding handle_create
handle_create_outcome parse_date env ctx input w c h =
    let (_, bound_ok, e1) = chain-ok (bind parse_date input) _ w c refl h in
    let (row, same) = bind-bound parse_date input w _ bound_ok in
    let e2 : handle_create parse_date env ctx input w
        ≡ (Customers.create env (asked parse_date env ctx input) >>= assign_code env) w =
      rw (row, same) at e1 in
    let (created, inserted_ok, e3) =
      chain-ok (Customers.create env (asked parse_date env ctx input)) (assign_code env) w c e2 h in
    let s = (Customers.create env (asked parse_date env ctx input) w).1 in
    rw e3 (
      registered parse_date env ctx input created c w s
        (create-tick env (asked parse_date env ctx input) w)
        (create-ok env (asked parse_date env ctx input) created w inserted_ok)
        (ap (λ r. r.0) (sym e3) ∙ h))
