-- ===== src/Orders/Repo/Book.antt =====
-- The orders as an abstract book: under a seller and an id there is an order or none. What each operation
-- of api/internal/orders/repo.go may do to it, whatever the tables, their rows and their order.
pub mod Rows
use agentic_mudahurus.Shared.{
  ◌≡◌, Bool, Option, none, some, List, [], ◌∷◌, ◌&&◌, if◌then◌else◌, ◌==◌,
}
use mathlib.Core.Option
use agentic_mudahurus.Schema.{Uuid, Time, Status, OrderRow, OrderItem}
use agentic_mudahurus.World.{not_found, failure, Result, ok, err}
use agentic_mudahurus.Orders.Repo.{with_status, with_details, is_stale}

abbrev pub Book : Type 0
Book = Uuid → Uuid → Option OrderRow

abbrev pub is_key : (t id t1 id1 : Uuid) → Bool
is_key t id t1 id1 = t1 == t && id1 == id

-- The order under `t` and `id` becomes another, if there is one.
abbrev pub changed : Uuid → Uuid → (OrderRow → OrderRow) → Book → Book
changed t id f book t1 id1 = if is_key t id t1 id1 then Option.map f (book t1 id1) else book t1 id1

abbrev pub removed : Uuid → Uuid → Book → Book
removed t id book t1 id1 = if is_key t id t1 id1 then none else book t1 id1

abbrev pub entered : OrderRow → Book → Book
entered o book t1 id1 = if is_key o.tenant_id o.id t1 id1 then some o else book t1 id1

-- Every order to which the test applies becomes another.
abbrev pub swept : (OrderRow → Bool) → (OrderRow → OrderRow) → Book → Book
swept p f book t1 id1 = Option.map (λ o. if p o then f o else o) (book t1 id1)

pub data Call : Type 0 where
  create : OrderRow → List OrderItem → Call
  update_status : Uuid → Uuid → Status → Call
  update_details : OrderRow → Call
  delete : Uuid → Uuid → Call
  get : Uuid → Uuid → Call
  expire_stale : Call

-- The key that a call looks up.
abbrev pub key_of : Call → Option (Uuid × Uuid)
key_of (create o items) = none
key_of (update_status t id to) = some (t, id)
key_of (update_details o) = some (o.tenant_id, o.id)
key_of (delete t id) = some (t, id)
key_of (get t id) = some (t, id)
key_of expire_stale = none

-- An order that is created stands under its own key, which was free; an order that is not there is
-- reported; a failure leaves the book alone.
pub data Step : Call → Book → Result (Option OrderRow) → Book → Type 0 where
  enters :
      {before after : Book} {items : List OrderItem} (asked o : OrderRow)
      → before o.tenant_id o.id ≡ none
      → after ≡ entered o before
      → Step (create asked items) before (ok (some o)) after
  moves :
      {before after : Book} {t id : Uuid} {to : Status} (o : OrderRow)
      → before t id ≡ some o
      → after ≡ changed t id (with_status to) before
      → Step (update_status t id to) before (ok none) after
  edits :
      {before after : Book} {asked : OrderRow} (o : OrderRow)
      → before asked.tenant_id asked.id ≡ some o
      → after ≡ changed asked.tenant_id asked.id (with_details asked) before
      → Step (update_details asked) before (ok none) after
  removes :
      {before after : Book} {t id : Uuid} (o : OrderRow)
      → before t id ≡ some o
      → after ≡ removed t id before
      → Step (delete t id) before (ok none) after
  reads :
      {before after : Book} {t id : Uuid} (o : OrderRow)
      → before t id ≡ some o
      → after ≡ before
      → Step (get t id) before (ok (some o)) after
  expires :
      {before after : Book} (now : Time)
      → after ≡ swept (is_stale now) (with_status Status.expired) before
      → Step expire_stale before (ok none) after
  finds_nothing :
      {before after : Book} {call : Call} (t id : Uuid)
      → key_of call ≡ some (t, id)
      → before t id ≡ none
      → after ≡ before
      → Step call before (err not_found) after
  fails :
      {before after : Book} {call : Call} → after ≡ before → Step call before (err failure) after

-- The answers to a list of calls, one after the other.
pub data Trace : List Call → Book → List (Result (Option OrderRow)) → Book → Type 0 where
  stop : {book : Book} → Trace [] book [] book
  step :
      {before after last : Book} {call : Call} {calls : List Call}
      {answer : Result (Option OrderRow)} {answers : List (Result (Option OrderRow))}
      → Step call before answer after
      → Trace calls after answers last
      → Trace (call ∷ calls) before (answer ∷ answers) last
