-- ===== src/Orders/Service/Creation.antt =====
-- What `CreateAdmin` stores, after its validation and the enrichment from the catalogue.
use agentic_mudahurus.Shared.{
  ◌≡◌, ◌≢◌, refl, sym, subst, ◌∙◌, ap, false, List, [], ◌∷◌, map, All, Text, codes,
}
use agentic_mudahurus.Shared.Int.{◌+ℤ◌, ◌*ℤ◌}
use agentic_mudahurus.Schema.{Uuid, pending, OrderRow, OrderItem, Order, Db}
use agentic_mudahurus.World.{
  Env, World, Error, Result, ok, err, pure, lift, emit, order_created, ◌>>=◌,
}
use agentic_mudahurus.World.Preserves.{Preserves-lift}
use agentic_mudahurus.World.Inversion.{chain-ok, Atomic, Atomic-read, Atomic-last}
use agentic_mudahurus.Httpx.Validation.{is_blank, require_field, verdict, new_validator}
use agentic_mudahurus.Httpx.Laws.{verdict-require_field}
use agentic_mudahurus.Orders.Repo
use agentic_mudahurus.Orders.Repo.{fill_totals, sum_totals}
use agentic_mudahurus.Orders.Repo.Creation.{
  line_sum, sum_totals-line_sum, content, with_order, IsStored, create_whole,
}
use agentic_mudahurus.Orders.Service.{
  ItemInput, AdminInput, build_items, refuse_empty, new_order, create_admin,
}
use agentic_mudahurus.Orders.Service.Answers.{
  Answers, Answers-content, Answers-fill_totals, build_items-Answers,
}
use agentic_mudahurus.Orders.Service.Isolation.{Preserves-build_items, Preserves-refuse_empty}

-- ---- lines ----

line_sum-content : (is : List OrderItem) → line_sum (map content is) ≡ line_sum is
unfolding line_sum
line_sum-content [] = refl
line_sum-content (i ∷ is) = ap (λ s. i.quantity *ℤ i.unit_price +ℤ s) (line_sum-content is)

line_sum-fill_totals : (is : List OrderItem) → line_sum (fill_totals is) ≡ line_sum is
unfolding line_sum fill_totals
line_sum-fill_totals [] = refl
line_sum-fill_totals (i ∷ is) = ap (λ s. i.quantity *ℤ i.unit_price +ℤ s) (line_sum-fill_totals is)

-- Each line's total is its quantity times its unit price.
abbrev pub IsTotalled : OrderItem → Type 0
IsTotalled i = i.line_total ≡ i.quantity *ℤ i.unit_price

fill_totals-IsTotalled : (is : List OrderItem) → All IsTotalled (fill_totals is)
unfolding fill_totals
fill_totals-IsTotalled [] = tt
fill_totals-IsTotalled (i ∷ is) = (refl, fill_totals-IsTotalled is)

content-IsTotalled :
    (is js : List OrderItem)
    → map content js ≡ map content is
    → All IsTotalled is
    → All IsTotalled js
content-IsTotalled [] [] e h = tt
content-IsTotalled [] (j ∷ js) e h = cc
content-IsTotalled (i ∷ is) [] e h = cc
content-IsTotalled (i ∷ is) (j ∷ js) e (here, h) =
    let same_total : j.line_total ≡ i.line_total = cc in
    let same_price : j.unit_price ≡ i.unit_price = cc in
    let same_quantity : j.quantity ≡ i.quantity = cc in
    let rest_same : map content js ≡ map content is = cc in
    (rw (same_total, same_price, same_quantity) here, content-IsTotalled is js rest_same h)

-- ---- the operation ----

-- The row has the columns that the client sent.
pub record IsSent (input : AdminInput) (row : OrderRow) : Type 0 where
  pub full_name : row.full_name ≡ input.full_name
  pub email : row.email ≡ input.email
  pub contact_no : row.contact_no ≡ input.contact_no
  pub shipping_address : row.shipping_address ≡ input.shipping_address
  pub additional_notes : row.additional_notes ≡ input.additional_notes

-- What a seller's order is once it is created from `input`.
pub record IsCreated (env : Env) (t : Uuid) (input : AdminInput) (before db : Db) (p : Order)
    : Type 0 where
  pub named : is_blank input.full_name ≡ false
  pub asked : input.items ≢ []
  pub sent : IsSent input p.row
  pub answers : Answers env t before p.items input.items
  pub status : p.row.status ≡ pending
  pub tenant : p.row.tenant_id ≡ t
  pub linked : All (λ i. i.order_id ≡ p.row.id) p.items
  pub totalled : All IsTotalled p.items
  pub total : p.row.total_price ≡ line_sum p.items
  pub tables : db ≡ with_order p.row p.items before

refuse_empty-ok :
    (msg : Text) (qs : List ItemInput) (w : World) → (refuse_empty msg qs w).0 ≡ ok tt → qs ≢ []
unfolding refuse_empty ◌>>=◌
refuse_empty-ok msg [] w h = cc
refuse_empty-ok msg (q ∷ qs) w h = λ e. cc e

stored-IsCreated :
    (env : Env) (t : Uuid) (input : AdminInput) (items : List OrderItem) (before db : Db)
    (p : Order)
    → is_blank input.full_name ≡ false
    → input.items ≢ []
    → Answers env t before items input.items
    → IsStored (new_order t input) items before db p
    → IsCreated env t input before db p
stored-IsCreated env t input items before db p named asked answers stored = record {
  named = named;
  asked = asked;
  sent = record {
    full_name = ap (λ r. r.full_name) stored.row;
    email = ap (λ r. r.email) stored.row;
    contact_no = ap (λ r. r.contact_no) stored.row;
    shipping_address = ap (λ r. r.shipping_address) stored.row;
    additional_notes = ap (λ r. r.additional_notes) stored.row;
  };
  answers =
      Answers-content env t before _ _ _ stored.lines
        (Answers-fill_totals env t before _ _ answers);
  totalled = content-IsTotalled _ _ stored.lines (fill_totals-IsTotalled items);
  status = ap (λ r. r.status) stored.row;
  tenant = ap (λ r. r.tenant_id) stored.row;
  linked = stored.linked;
  total =
      ap (λ r. r.total_price) stored.row
      ∙ sum_totals-line_sum items
      ∙ sym (line_sum-fill_totals items)
      ∙ sym (line_sum-content (fill_totals items))
      ∙ ap line_sum (sym stored.lines)
      ∙ line_sum-content p.items;
  tables = stored.tables;
}

abbrev named_check : AdminInput → Result (Unit {0})
named_check input = verdict (require_field (codes "full_name") input.full_name new_validator)

abbrev no_items_msg : Text
no_items_msg = codes "at least one item is required"

create_admin-IsCreated :
    (env : Env) (t : Uuid) (input : AdminInput) (w : World) (p : Order)
    → (create_admin env t input w).0 ≡ ok p
    → IsCreated env t input w.db (create_admin env t input w).1.db p
unfolding create_admin lift pure emit
create_admin-IsCreated env t input w p h =
    let (u, eu, e1) = chain-ok (lift (named_check input)) _ w p refl h in
    let (v, ev, e2) = chain-ok (refuse_empty no_items_msg input.items) _ w p e1 h in
    let w1 = (refuse_empty no_items_msg input.items w).1 in
    let (items, ei, e3) = chain-ok (build_items env t input.items) _ w1 p e2 h in
    let w2 = (build_items env t input.items w1).1 in
    let (o, eo, e4) = chain-ok (Repo.create env (new_order t input) items) _ w2 p e3 h in
    let (x, ex, e5) =
      chain-ok (emit (record { type = order_created; tenant_id = t; source_id = o.id })) _ _ p e4
        h in
    let w3 = (Repo.create env (new_order t input) items w2).1 in
    let same : o ≡ p = cc (ap (λ s. s.0) e5, h) in
    let (stored, _) = create_whole env (new_order t input) items w2 in
    let kept : w2.db ≡ w.db =
      (Preserves-build_items {P = λ db. db ≡ w.db} env t input.items).holds w1 (
        (Preserves-refuse_empty {P = λ db. db ≡ w.db} env no_items_msg input.items).holds w refl) in
    let (named, _) = verdict-require_field (codes "full_name") input.full_name new_validator eu in
    let asked = refuse_empty-ok no_items_msg input.items w ev in
    let kept1 : w1.db ≡ w.db =
      (Preserves-refuse_empty {P = λ db. db ≡ w.db} env no_items_msg input.items).holds w refl in
    let answers =
      subst (λ db. Answers env t db items input.items) kept1
        (build_items-Answers env t input.items w1 items ei) in
    let created =
      stored-IsCreated env t input items w.db w3.db o named asked answers
        (subst (λ db. IsStored (new_order t input) items db w3.db o) kept (stored o eo)) in
    subst (IsCreated env t input w.db (create_admin env t input w).1.db) same
      (subst (λ db. IsCreated env t input w.db db o) (sym (ap (λ s. s.1.db) e5)) created)

create_admin-Atomic :
    (env : Env) (t : Uuid) (input : AdminInput) → Atomic (create_admin env t input)
unfolding create_admin emit pure ◌>>=◌
create_admin-Atomic env t input =
    Atomic-read _ _ (λ before. Preserves-lift (named_check input))
      λ _.
        Atomic-read _ _ (λ before. Preserves-refuse_empty env no_items_msg input.items)
          λ _.
            Atomic-read _ _ (λ before. Preserves-build_items env t input.items)
              λ items.
                Atomic-last _ _
                  (record { holds = λ w e h. (create_whole env (new_order t input) items w).1 e h })
                  (λ o w e. cc)

-- CreateAdmin, with amounts in whole sen. If it returns an order: the request had a name and at least one
-- item; the order is pending, belongs to the tenant, and has the name, the addresses, the number and
-- the notes sent. Its items answer the lines asked for one by one, in their order: each has the SKU
-- asked for, and the quantity asked for, or one where that is not positive. Where the tenant has a
-- product with that SKU in any case, the item has its id, its name and the price asked for, or that of
-- the product where zero was asked; where it has none, or a statement failed, the item has no product,
-- no name and the price asked for. Each line's total is its quantity times its price, the order's
-- total is their sum, and the tables hold the order and its items behind what they held before. If
-- it fails, the tables are what they were.
pub create_admin_outcome :
    (env : Env) (t : Uuid) (input : AdminInput) (w : World)
    → ((p : Order)
        → (create_admin env t input w).0 ≡ ok p
        → IsCreated env t input w.db (create_admin env t input w).1.db p)
      × ((e : Error)
          → (create_admin env t input w).0 ≡ err e
          → (create_admin env t input w).1.db ≡ w.db)
create_admin_outcome env t input w =
    (create_admin-IsCreated env t input w, (create_admin-Atomic env t input).holds w)
