-- ===== src/Customers/Codes.antt =====
-- What the two statements behind a new customer do to the table.
use agentic_mudahurus.Shared.{
  ℕ, suc, if◌then◌else◌, ◌||◌, ◌≡◌, ◌⊎◌, refl, ◌∙◌, ap, Bool, true, false, List, [], ◌∷◌, ◌++◌,
  arith, any, update_where, Text, is_empty, ◌==◌, Bool-cases, inl, inr,
}
use agentic_mudahurus.Schema.{Uuid, Customer, Db}
use agentic_mudahurus.World.{Env, World, ok, pure, try, statement, affected, inserted, ◌>>=◌}
use agentic_mudahurus.Customers
use agentic_mudahurus.Customers.{
  same_code, code_free, is_customer, other_has, with_columns, Input, bound, bind, default_code,
  assign_code, put_code, handle_create,
}

abbrev pub insert_customer : Customer → Db → Db
insert_customer c db = record db { customers = db.customers ++ c ∷ [] }

-- What `create` asked of the table before it wrote the row.
pub record IsInserted (q c : Customer) (before after : Db) : Type 0 where
  pub row : record c { id = 0; created_at = 0 } ≡ record q { id = 0; created_at = 0 }
  pub fresh : any (λ x. x.id == c.id) before.customers ≡ false
  pub free : any (same_code c.tenant_id c.loyalty_code) before.customers ≡ false
  pub tables : after ≡ insert_customer c before

pub create-ok :
    (env : Env) (q c : Customer) (w : World)
    → (Customers.create env q w).0 ≡ ok c
    → IsInserted q c w.db (Customers.create env q w).1.db
unfolding Customers.create inserted statement
create-ok env q c w h = ground arith

update-tables :
    (env : Env) (q : Customer) (w : World)
    → any (is_customer q.tenant_id q.id) w.db.customers ≡ true
    → (Customers.update env q w).1.db ≡ (
        if env.fails w.tick || any (other_has q.tenant_id q.id q.loyalty_code) w.db.customers
        then w.db
        else record w.db {
          customers = update_where (is_customer q.tenant_id q.id) (with_columns q) w.db.customers;
        })
unfolding Customers.update affected statement
update-tables env q w there = ground arith

pub create-tick :
    (env : Env) (q : Customer) (w : World) → (Customers.create env q w).1.tick ≡ suc w.tick
unfolding Customers.create statement
create-tick env q w = ground arith

update_last :
    (q c : Customer) (cs : List Customer)
    → any (λ x. x.id == c.id) cs ≡ false
    → q.id ≡ c.id
    → q.tenant_id ≡ c.tenant_id
    → update_where (is_customer q.tenant_id q.id) (with_columns q) (cs ++ c ∷ [])
      ≡ cs ++ with_columns q c ∷ []
update_last q c [] fresh ei et = rw (ei, et) ground arith
update_last q c (d ∷ cs) fresh ei et =
    let miss : is_customer q.tenant_id q.id d ≡ false = ground arith in
    let later : any (λ x. x.id == c.id) cs ≡ false = ground arith in
    rw (miss, update_last q c cs later ei et) refl

last_is_customer :
    (c : Customer) (cs : List Customer) → any (is_customer c.tenant_id c.id) (cs ++ c ∷ []) ≡ true
last_is_customer c [] = ground arith
last_is_customer c (d ∷ cs) = let rest = last_is_customer c cs in ground arith

-- Among rows with other ids, the rows that keep a code from the last one are those that have it.
other_last :
    (c : Customer) (code : Text) (cs : List Customer)
    → any (λ x. x.id == c.id) cs ≡ false
    → any (other_has c.tenant_id c.id code) (cs ++ c ∷ []) ≡ any (same_code c.tenant_id code) cs
other_last c code [] fresh = ground arith
other_last c code (d ∷ cs) fresh =
    let later : any (λ x. x.id == c.id) cs ≡ false = ground arith in
    let rest = other_last c code cs later in ground arith

-- The second statement fails: by itself, or since a customer of the seller has the code.
abbrev pub is_blocked : Env → ℕ → Uuid → Text → List Customer → Bool
is_blocked env tick tenant code cs = env.fails tick || any (same_code tenant code) cs

-- The row that a code is put on stands last; where the second statement fails, the row keeps its code.
put_code-tables :
    (env : Env) (c : Customer) (before : Db) (w : World)
    → w.db ≡ insert_customer c before
    → any (λ x. x.id == c.id) before.customers ≡ false
    → (put_code env c w).1.db
      ≡ insert_customer
          (if is_blocked env w.tick c.tenant_id (default_code env c) before.customers
            then c
            else record c { loyalty_code = default_code env c })
          before
unfolding put_code try pure ◌>>=◌
put_code-tables env c before w stored fresh =
    let code = default_code env c in
    let q = record c { loyalty_code = code } in
    let rows : w.db.customers ≡ before.customers ++ c ∷ [] =
      ap (λ (db : Db). db.customers) stored in
    let there : any (is_customer q.tenant_id q.id) w.db.customers ≡ true =
      rw rows (last_is_customer c before.customers) in
    let taken : any (other_has q.tenant_id q.id q.loyalty_code) w.db.customers
        ≡ any (same_code c.tenant_id code) before.customers =
      rw rows (other_last c code before.customers fresh) in
    let done = update-tables env q w there in
    elim (Bool-cases (is_blocked env w.tick c.tenant_id code before.customers)) [
      | inl e ↦ rw e (rw (taken, e) at done ∙ stored)
      | inr e ↦ rw e (
          rw (taken, e) at done
          ∙ ap
              (λ (db : Db). record db {
                customers =
                    update_where (is_customer q.tenant_id q.id) (with_columns q) db.customers;
              })
              stored
          ∙ ap (λ cs. record before { customers = cs })
              (update_last q c before.customers fresh refl refl))
    ]

put_code-ok :
    (env : Env) (c d : Customer) (w : World)
    → (put_code env c w).0 ≡ ok d
    → d ≡ record c { loyalty_code = default_code env c }
unfolding put_code try pure ◌>>=◌
put_code-ok env c d w h = cc

pub assigned-ok :
    (env : Env) (c d : Customer) (before : Db) (w : World)
    → w.db ≡ insert_customer c before
    → any (λ x. x.id == c.id) before.customers ≡ false
    → (assign_code env c w).0 ≡ ok d
    → ((is_empty c.loyalty_code ≡ false)
        × (d ≡ c)
        × ((assign_code env c w).1.db ≡ insert_customer c before))
      ⊎ ((is_empty c.loyalty_code ≡ true)
          × (d ≡ record c { loyalty_code = default_code env c })
          × ((assign_code env c w).1.db
              ≡ insert_customer
                  (if is_blocked env w.tick c.tenant_id (default_code env c) before.customers
                    then c
                    else d)
                  before))
unfolding assign_code pure
assigned-ok env c d before w stored fresh h = elim (Bool-cases (is_empty c.loyalty_code)) [
  | inr e ↦ inl (e, cc (rw e at h), rw e stored)
  | inl e ↦
      let done = put_code-ok env c d w (rw e at h) in
      inr (e, done, rw (e, done) (put_code-tables env c before w stored fresh))
]
