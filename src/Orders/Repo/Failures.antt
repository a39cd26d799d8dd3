-- ===== src/Orders/Repo/Failures.antt =====
-- `Create` has no error but that of the database.
use agentic_mudahurus.Shared.{List, [], ◌∷◌, arith}
use agentic_mudahurus.Schema.{Uuid, Time, OrderRow, OrderItem}
use agentic_mudahurus.World.Failures.{
  OnlyFails, OnlyFails-pure, OnlyFails-bind, OnlyFails-transaction,
}
use agentic_mudahurus.World.{time_now, inserted, Env, statement, ◌>>=◌}
use agentic_mudahurus.Orders.Repo
use agentic_mudahurus.Orders.Repo.{is_order, with_status, with_details, is_stale}

expiry-OnlyFails : (env : Env) (d : Time) → OnlyFails (Repo.expiry env d)
unfolding Repo.expiry ◌>>=◌ time_now
expiry-OnlyFails env d = record { holds = λ w e h. ground arith }

insert_order-OnlyFails : (env : Env) (o : OrderRow) → OnlyFails (Repo.insert_order env o)
unfolding Repo.insert_order inserted statement
insert_order-OnlyFails env o = record { holds = λ w e h. ground arith }

insert_item-OnlyFails :
    (env : Env) (id : Uuid) (i : OrderItem) → OnlyFails (Repo.insert_item env id i)
unfolding Repo.insert_item inserted statement
insert_item-OnlyFails env id i = record { holds = λ w e h. ground arith }

insert_items-OnlyFails :
    (env : Env) (id : Uuid) (is : List OrderItem) → OnlyFails (Repo.insert_items env id is)
unfolding Repo.insert_items
insert_items-OnlyFails env id [] = OnlyFails-pure []
insert_items-OnlyFails env id (i ∷ is) =
    OnlyFails-bind _ _ (insert_item-OnlyFails env id i)
      (λ j. OnlyFails-bind _ _ (insert_items-OnlyFails env id is) (λ js. OnlyFails-pure (j ∷ js)))

pub create-OnlyFails :
    (env : Env) (o : OrderRow) (items : List OrderItem) → OnlyFails (Repo.create env o items)
unfolding Repo.create
create-OnlyFails env o items = OnlyFails-transaction env (Repo.create_body env o items) (
    OnlyFails-bind _ _ (expiry-OnlyFails env o.expired_date) (λ date.
      OnlyFails-bind _ _ (insert_order-OnlyFails env _) (λ row.
        OnlyFails-bind _ _ (insert_items-OnlyFails env row.id _) (λ stored. OnlyFails-pure _))))
