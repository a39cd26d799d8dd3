-- ===== src/Orders/Repo/Book/Rows.antt =====
-- What the operations on the table of orders do to the book that it stands for.
use agentic_mudahurus.Shared.{
  fun_ext, ◌≡◌, refl, ◌∙◌, true, false, Option, none, some, List, [], ◌∷◌, if◌then◌else◌, ◌==◌, any,
  find, find-holds, find-update_where, find-delete_where, find-last, update_where, delete_where,
  arith,
}
use mathlib.Core.Option
use agentic_mudahurus.Schema.{Uuid, OrderRow, OrderItem, Order, Db}
use agentic_mudahurus.Orders.Repo.{is_order}
use agentic_mudahurus.Orders.Repo.Creation.{IsStored}
use agentic_mudahurus.Orders.Repo.Book.{Book, is_key, changed, removed, entered}

abbrev pub book_of : Db → Book
book_of db t id = find (is_order t id) db.orders

-- An order under the one key is under the other if and only if the keys are the same.
key_decides :
    (t id t1 id1 : Uuid) (o : OrderRow)
    → is_order t1 id1 o ≡ true
    → is_order t id o ≡ is_key t id t1 id1
key_decides t id t1 id1 o h = ground arith

changed-found :
    (t id t1 id1 : Uuid) (f : OrderRow → OrderRow) (found : Option OrderRow)
    → ((o : OrderRow) → found ≡ some o → is_order t1 id1 o ≡ true)
    → Option.map (λ o. if is_order t id o then f o else o) found
      ≡ (if is_key t id t1 id1 then Option.map f found else found)
changed-found t id t1 id1 f none h = ground arith
changed-found t id t1 id1 f (some o) h = rw (key_decides t id t1 id1 o (h o refl)) ground arith

pub book_of-update :
    (t id : Uuid) (f : OrderRow → OrderRow) (db : Db) (os : List OrderRow)
    → ((t1 id1 : Uuid) (o : OrderRow) → is_order t1 id1 (f o) ≡ is_order t1 id1 o)
    → os ≡ update_where (is_order t id) f db.orders
    → (λ t1 id1. find (is_order t1 id1) os) ≡ changed t id f (book_of db)
book_of-update t id f db os keeps e = fun_ext (λ t1. fun_ext (λ id1. rw e (
    find-update_where (is_order t1 id1) (is_order t id) f db.orders (keeps t1 id1)
    ∙ changed-found t id t1 id1 f (find (is_order t1 id1) db.orders)
        (find-holds (is_order t1 id1) db.orders))))

pub book_of-delete :
    (t id : Uuid) (db : Db)
    → (λ t1 id1. find (is_order t1 id1) (delete_where (is_order t id) db.orders))
      ≡ removed t id (book_of db)
book_of-delete t id db = fun_ext (λ t1. fun_ext (λ id1.
    find-delete_where (is_order t1 id1) (is_order t id) (is_key t id t1 id1) db.orders
      (key_decides t id t1 id1)))

fresh_id :
    (id t1 id1 : Uuid) (os : List OrderRow)
    → any (λ x. x.id == id) os ≡ false
    → id1 ≡ id
    → find (is_order t1 id1) os ≡ none
fresh_id id t1 id1 [] h e = refl
fresh_id id t1 id1 (o ∷ os) h e = ground (arith, fresh_id id t1 id1 os)

pub created_book :
    (o : OrderRow) (items : List OrderItem) (before after : Db) (p : Order)
    → IsStored o items before after p
    → (book_of before p.row.tenant_id p.row.id ≡ none)
      × (book_of after ≡ entered p.row (book_of before))
created_book o items before after p st = (
  fresh_id p.row.id p.row.tenant_id p.row.id before.orders st.fresh refl,
  fun_ext (λ t. fun_ext (λ id. rw st.tables (
      find-last (is_order t id) p.row before.orders
        (λ h. fresh_id p.row.id t id before.orders st.fresh ground arith)
      ∙ cc (own t id p.row)))),
)
  where
    own : (t id : Uuid) (o : OrderRow) → is_order t id o ≡ is_key o.tenant_id o.id t id
    own t id o = ground arith
