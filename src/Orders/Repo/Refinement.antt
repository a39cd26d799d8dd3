-- ===== src/Orders/Repo/Refinement.antt =====
-- The repository of orders implements the abstract book, call by call and over every sequence of calls.
use agentic_mudahurus.Shared.{
  any-find, not_any-find, fun_ext, ◌≡◌, refl, sym, subst, ap, Bool, true, false, Option, none, some,
  List, [], ◌∷◌, any, find, find-update_where, arith, Bool-cases, ◌⊎◌, inl, inr,
}
use agentic_mudahurus.Schema.{Uuid, Status, OrderRow, OrderItem, Db}
use agentic_mudahurus.World.Preserves.{bind_elim}
use agentic_mudahurus.World.{
  Env, World, Action, Error, Result, not_found, failure, ok, err, pure, statement, answer, affected,
  ◌>>=◌,
}
use agentic_mudahurus.Orders.Repo
use agentic_mudahurus.Orders.Repo.{is_order, with_status, with_details, is_stale}
use agentic_mudahurus.Orders.Repo.Queries.{get-found}
use agentic_mudahurus.Orders.Repo.Creation.{create_whole}
use agentic_mudahurus.Orders.Repo.Isolation.{Preserves-get}
use agentic_mudahurus.Orders.Repo.Book.{
  Call, create, update_status, update_details, delete, get, expire_stale, key_of, Step, enters,
  moves, edits, removes, reads, expires, finds_nothing, fails, Trace, stop, step,
}
use agentic_mudahurus.Orders.Repo.Book.Rows.{book_of, book_of-update, book_of-delete, created_book}
use agentic_mudahurus.Orders.Repo.Failures.{create-OnlyFails}

abbrev answering : {A : Type 0} → Action A → (A → Option OrderRow) → Action (Option OrderRow)
answering m f = do a ← m; pure (f a)

unfoldable pub perform : Env → Call → Action (Option OrderRow)
perform env (create o items) = answering (Repo.create env o items) (λ p. some p.row)
perform env (update_status t id to) = answering (Repo.update_status env t id to) (λ u. none)
perform env (update_details o) = answering (Repo.update_details env o) (λ u. none)
perform env (delete t id) = answering (Repo.delete env t id) (λ u. none)
perform env (get t id) = answering (Repo.get env t id) (λ p. some p.row)
perform env expire_stale = answering (Repo.expire_stale env) (λ n. none)

unfoldable pub perform_all : Env → List Call → World → List (Result (Option OrderRow)) × World
unfolding perform
perform_all env [] w = ([], w)
perform_all env (call ∷ calls) w =
    let rest = perform_all env calls (perform env call w).1 in
    ((perform env call w).0 ∷ rest.0, rest.1)

-- ---- each call is a step ----

-- An UPDATE or a DELETE, whether the database fails, finds a row or finds that a constraint is broken.
module _ (call : Call) (t id : Uuid) (key : key_of call ≡ some (t, id)) (w : World)
    (next : Db) where
  affected_refines :
      (down found fits : Bool)
      → (found ≡ true → Step call (book_of w.db) (ok none) (book_of next))
      → (found ≡ false → book_of w.db t id ≡ none)
      → let s = answering (λ w. answer down (affected found fits tt next w.db) w) (λ u. none) w in
        Step call (book_of w.db) s.0 (book_of s.1.db)
  unfolding affected pure ◌>>=◌
  affected_refines true found fits hit miss = fails refl
  affected_refines false false fits hit miss = finds_nothing t id key (miss refl) refl
  affected_refines false true false hit miss = fails refl
  affected_refines false true true hit miss = hit refl

update_status-refines :
    (env : Env) (t id : Uuid) (to : Status) (w : World)
    → Step
        (update_status t id to)
        (book_of w.db)
        (perform env (update_status t id to) w).0
        (book_of (perform env (update_status t id to) w).1.db)
unfolding perform Repo.update_status statement ◌>>=◌
update_status-refines env t id to w =
    affected_refines (update_status t id to) t id refl w _ (env.fails w.tick)
      (any (is_order t id) w.db.orders) _
      (λ hit.
        let (o, found) = any-find (is_order t id) w.db.orders hit in
        moves o found (book_of-update t id (with_status to) w.db _ (λ t1 id1 o. refl) refl))
      (not_any-find (is_order t id) w.db.orders)

update_details-refines :
    (env : Env) (o : OrderRow) (w : World)
    → Step
        (update_details o)
        (book_of w.db)
        (perform env (update_details o) w).0
        (book_of (perform env (update_details o) w).1.db)
unfolding perform Repo.update_details statement ◌>>=◌
update_details-refines env o w =
    affected_refines (update_details o) o.tenant_id o.id refl w _ (env.fails w.tick)
      (any (is_order o.tenant_id o.id) w.db.orders) _
      (λ hit.
        let (p, found) = any-find (is_order o.tenant_id o.id) w.db.orders hit in
        edits p found
          (book_of-update o.tenant_id o.id (with_details o) w.db _ (λ t1 id1 p. refl) refl))
      (not_any-find (is_order o.tenant_id o.id) w.db.orders)

delete-refines :
    (env : Env) (t id : Uuid) (w : World)
    → Step
        (delete t id)
        (book_of w.db)
        (perform env (delete t id) w).0
        (book_of (perform env (delete t id) w).1.db)
unfolding perform Repo.delete statement ◌>>=◌
delete-refines env t id w =
    affected_refines (delete t id) t id refl w _ (env.fails w.tick)
      (any (is_order t id) w.db.orders) _
      (λ hit.
        let (o, found) = any-find (is_order t id) w.db.orders hit in
        removes o found (book_of-delete t id w.db))
      (not_any-find (is_order t id) w.db.orders)

expire_stale-refines :
    (env : Env) (w : World)
    → Step expire_stale
        (book_of w.db)
        (perform env expire_stale w).0
        (book_of (perform env expire_stale w).1.db)
unfolding perform Repo.expire_stale statement pure ◌>>=◌
expire_stale-refines env w = elim (Bool-cases (env.fails w.tick)) [
  | inl e ↦ rw e (fails refl)
  | inr e ↦ rw e (
      expires (env.now w.tick) (
        fun_ext (λ t. fun_ext (λ id.
          find-update_where (is_order t id) (is_stale (env.now w.tick)) (with_status Status.expired)
            w.db.orders (λ o. refl)))))
]

-- A call goes on with its answer.
answering-refines :
    {A : Type 0} (call : Call) (m : Action A) (f : A → Option OrderRow) (w : World)
    → ((a : A) → (m w).0 ≡ ok a → Step call (book_of w.db) (ok (f a)) (book_of (m w).1.db))
    → ((e : Error) → (m w).0 ≡ err e → Step call (book_of w.db) (err e) (book_of (m w).1.db))
    → Step call (book_of w.db) (answering m f w).0 (book_of (answering m f w).1.db)
unfolding pure
answering-refines call m f w returned failed =
    bind_elim (λ s. Step call (book_of w.db) s.0 (book_of s.1.db)) m (λ a. pure (f a)) w returned
      failed

create-refines :
    (env : Env) (o : OrderRow) (items : List OrderItem) (w : World)
    → Step
        (create o items)
        (book_of w.db)
        (perform env (create o items) w).0
        (book_of (perform env (create o items) w).1.db)
unfolding perform
create-refines env o items w =
    answering-refines (create o items) (Repo.create env o items) (λ p. some p.row) w
      (λ p returned.
        let (free, same) =
          created_book o items w.db _ p ((create_whole env o items w).0 p returned) in
        enters o p.row free same)
      (λ e failed.
        subst
          (λ x.
            Step (create o items) (book_of w.db) (err x) (book_of (Repo.create env o items w).1.db))
          (sym ((create-OnlyFails env o items).holds w e failed))
          (fails (ap book_of ((create_whole env o items w).1 e failed))))

get-err :
    (env : Env) (t id : Uuid) (w : World) (e : Error)
    → (Repo.get env t id w).0 ≡ err e
    → (e ≡ failure) ⊎ ((e ≡ not_found) × (find (is_order t id) w.db.orders ≡ none))
unfolding Repo.get Repo.load_children ◌>>=◌
get-err env t id w e h = ground arith

get-refines :
    (env : Env) (t id : Uuid) (w : World)
    → Step
        (get t id)
        (book_of w.db)
        (perform env (get t id) w).0
        (book_of (perform env (get t id) w).1.db)
unfolding perform
get-refines env t id w =
    let same : (Repo.get env t id w).1.db ≡ w.db =
      (Preserves-get {P = λ db. db ≡ w.db} env t id).holds w refl in
    answering-refines (get t id) (Repo.get env t id) (λ p. some p.row) w
      (λ p returned. reads p.row (get-found env t id w p returned) (ap book_of same))
      (λ e failed. elim (get-err env t id w e failed) [
        | inl down ↦ rw down (fails (ap book_of same))
        | inr (absent, none_there) ↦
            rw absent (finds_nothing t id refl none_there (ap book_of same))
      ])

Step-refines :
    (env : Env) (call : Call) (w : World)
    → Step call (book_of w.db) (perform env call w).0 (book_of (perform env call w).1.db)
Step-refines env (create o items) w = create-refines env o items w
Step-refines env (update_status t id to) w = update_status-refines env t id to w
Step-refines env (update_details o) w = update_details-refines env o w
Step-refines env (delete t id) w = delete-refines env t id w
Step-refines env (get t id) w = get-refines env t id w
Step-refines env expire_stale w = expire_stale-refines env w

-- The repository of orders implements a book that maps a seller and an id to an order or to none: whatever
-- the tables hold, whichever calls follow one another and whenever the database fails, the answers are
-- a run of the book. An order that is created stands under a key that was free, a call that reports
-- `not found` looked up a key without an order, and a call that fails leaves the book alone.
pub orders_book :
    (env : Env) (calls : List Call) (w : World)
    → Trace calls
        (book_of w.db)
        (perform_all env calls w).0
        (book_of (perform_all env calls w).1.db)
unfolding perform_all
orders_book env [] w = stop
orders_book env (call ∷ calls) w =
    step (Step-refines env call w) (orders_book env calls (perform env call w).1)
