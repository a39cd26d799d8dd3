-- ===== src/Customers/Blocked.antt =====
-- What a customer without a loyalty code brings about.
use agentic_mudahurus.Shared.{◌≡◌, true, Option, [], arith, any, Text, codes}
use agentic_mudahurus.Schema.{Time, Customer}
use agentic_mudahurus.World.{failure, Env, World, ok, err, pure, lift, statement, inserted, ◌>>=◌}
use agentic_mudahurus.World.Inversion.{bind-err}
use agentic_mudahurus.Httpx.Validation.{new_validator, require_field, verdict}
use agentic_mudahurus.Tenancy.Identity.{Context, tid}
use agentic_mudahurus.Customers
use agentic_mudahurus.Customers.{
  same_code, code_free, is_customer, with_columns, Input, bound, bind, default_code, assign_code,
  put_code, handle_create,
}
use agentic_mudahurus.Customers.Creation.{asked}

refused-create :
    (env : Env) (q : Customer) (w : World)
    → any (same_code q.tenant_id q.loyalty_code) w.db.customers ≡ true
    → (Customers.create env q w).0 ≡ err failure
unfolding Customers.create inserted statement
refused-create env q w taken = ground arith

-- While a customer of the seller has the empty loyalty code, which is what a failed second statement leaves,
-- every valid request to create a customer without a code fails with an internal error.
pub empty_code_blocks :
    (parse_date : Text → Option Time) (env : Env) (ctx : Context) (input : Input) (w : World)
    → verdict (require_field (codes "full_name") input.full_name new_validator) ≡ ok tt
    → input.loyalty_code ≡ []
    → any (same_code (tid ctx) []) w.db.customers ≡ true
    → (handle_create parse_date env ctx input w).0 ≡ err failure
unfolding handle_create bind lift pure ◌>>=◌
empty_code_blocks parse_date env ctx input w named empty taken =
    let no = refused-create env (asked parse_date env ctx input) w (rw empty taken) in
    rw named (
      bind-err (Customers.create env (asked parse_date env ctx input)) (assign_code env) w failure
        no)
