-- ===== src/Enhancements/Payments/Webhook.antt =====
-- What the gateway's callback changes.
use agentic_mudahurus.Shared.{
  suc, ℕ, ◌≡◌, refl, ◌∙◌, ap, true, false, some, [], ◌∷◌, ◌++◌, any, find, update_where,
  update_where-none, Text, codes, text_eq_refl, ◌==◌, arith, Bool-cases, none_or_some, inl, inr,
}
use agentic_mudahurus.Schema.{Uuid, Order, payment_accepted, verified, Db}
use agentic_mudahurus.World.{
  Env, World, Message, ok, err, pure, raise, require, try, map_error, statement, affected, ◌>>=◌,
}
use agentic_mudahurus.Httpx.Errors.{unauthorized}
use agentic_mudahurus.Auth.Service.{send}
use agentic_mudahurus.Orders.Status.{is_order_status}
use agentic_mudahurus.Orders.Repo
use agentic_mudahurus.Orders.Repo.{is_order, is_payment, with_status, with_payment_status}
use agentic_mudahurus.Enhancements.Notify.{notify_email, render}
use agentic_mudahurus.Enhancements.Payments.{
  Callback, confirmation, settle, signed, payment_webhook,
}

-- The tables once a payment is verified and an order accepted.
abbrev pub settled : Order → Uuid → Uuid → Db → Db
settled o oid pid db = record db {
  payments =
      update_where (is_payment db o.row.tenant_id pid) (with_payment_status verified) db.payments;
  orders = update_where (is_order o.row.tenant_id oid) (with_status payment_accepted) db.orders;
}

abbrev pub mail : Env → Order → Message
mail env o = record {
  to = o.row.email;
  subject = codes "MUDAHURUS: order_confirmed";
  body = render (codes "order_confirmed") (confirmation env o).vars;
}

module _ (env : Env) (healthy : (k : ℕ) → env.fails k ≡ false) where
  -- A payment that is not there is no obstacle, since the error is dropped.
  set_payment-tables :
      (t pid : Uuid) (w : World)
      → (Repo.set_payment_status env t pid verified w).1 ≡ record w {
        tick = suc w.tick;
        db = record w.db {
          payments =
              update_where (is_payment w.db t pid) (with_payment_status verified) w.db.payments;
        };
      }
  unfolding Repo.set_payment_status statement affected
  set_payment-tables t pid w = elim (Bool-cases (any (is_payment w.db t pid) w.db.payments)) [
    | inl e ↦ rw (healthy w.tick, e) refl
    | inr e ↦
        rw
          (
            healthy w.tick,
            e,
            update_where-none (is_payment w.db t pid) (with_payment_status verified) w.db.payments
                e,
          )
          refl
  ]

  accept-tables :
      (t oid : Uuid) (w : World)
      → (Repo.update_status env t oid payment_accepted w).1 ≡ record w {
        tick = suc w.tick;
        db = record w.db {
          orders = update_where (is_order t oid) (with_status payment_accepted) w.db.orders;
        };
      }
  unfolding Repo.update_status statement affected is_order_status
  accept-tables t oid w = elim (Bool-cases (any (is_order t oid) w.db.orders)) [
    | inl e ↦ rw (healthy w.tick, e) refl
    | inr e ↦
        rw
          (
            healthy w.tick,
            e,
            update_where-none (is_order t oid) (with_status payment_accepted) w.db.orders e,
          )
          refl
  ]

  settle-tables :
      (oid pid : Uuid) (o : Order) (w : World)
      → settle env oid pid o w ≡ (
        ok tt,
        record w {
          tick = suc (suc w.tick);
          db = settled o oid pid w.db;
          mails = w.mails ++ mail env o ∷ [];
        },
      )
  unfolding settle try notify_email send pure ◌>>=◌
  settle-tables oid pid o w =
      rw
        (
          set_payment-tables o.row.tenant_id pid w,
          accept-tables o.row.tenant_id oid (record w {
            tick = suc w.tick;
            db = record w.db {
              payments =
                  update_where (is_payment w.db o.row.tenant_id pid) (with_payment_status verified)
                    w.db.payments;
            };
          }),
        )
        refl

webhook_step :
    (env : Env) (secret : Text) (call : Callback) (w : World) (oid pid : Uuid) (o : Order)
    → signed env secret call ≡ true
    → env.parse_uuid call.order_id ≡ some oid
    → env.parse_uuid call.payment_id ≡ some pid
    → (Repo.get_by_id env oid w).0 ≡ ok o
    → call.status ≡ codes "paid"
    → payment_webhook env secret call w ≡ settle env oid pid o (Repo.get_by_id env oid w).1
unfolding payment_webhook require map_error pure ◌>>=◌
webhook_step env secret call w oid pid o allowed order payment read paid =
    rw (allowed, order, payment, read, paid, text_eq_refl (codes "paid")) refl

webhook_refused :
    (env : Env) (secret : Text) (call : Callback) (w : World)
    → signed env secret call ≡ false
    → payment_webhook env secret call w
      ≡ (err (unauthorized (codes "invalid gateway signature")), w)
unfolding payment_webhook raise ◌>>=◌
webhook_refused env secret call w denied = rw denied refl

read-quiet :
    (env : Env) (oid : Uuid) (w : World) (o : Order)
    → (Repo.get_by_id env oid w).0 ≡ ok o
    → (Repo.get_by_id env oid w).1 ≡ record w { tick = suc (suc (suc w.tick)) }
unfolding Repo.get_by_id Repo.load_children ◌>>=◌
read-quiet env oid w o h = elim (none_or_some (find (λ x. x.id == oid) w.db.orders)) [
  | inl e ↦ absurd (ground arith)
  | inr (r, e) ↦ ground arith
]

-- The gateway's callback. If no statement fails: a callback whose signature is not the configured secret is
-- refused and changes nothing; and one that says `paid` for an order that exists makes that order
-- payment_accepted, whatever its status was, and the named payment verified, if it belongs to an order
-- of the same seller, and sends one confirmation to the order's address; nothing else changes.
pub payment_webhook_outcome :
    (env : Env) (healthy : (k : ℕ) → env.fails k ≡ false) (secret : Text) (call : Callback)
    (w : World)
    → (signed env secret call ≡ false
        → payment_webhook env secret call w
          ≡ (err (unauthorized (codes "invalid gateway signature")), w))
      × ((oid pid : Uuid) (o : Order)
          → signed env secret call ≡ true
          → env.parse_uuid call.order_id ≡ some oid
          → env.parse_uuid call.payment_id ≡ some pid
          → (Repo.get_by_id env oid w).0 ≡ ok o
          → call.status ≡ codes "paid"
          → payment_webhook env secret call w ≡ (
            ok tt,
            record w {
              tick = suc (suc (suc (suc (suc w.tick))));
              db = settled o oid pid w.db;
              mails = w.mails ++ mail env o ∷ [];
            },
          ))
unfolding pure
payment_webhook_outcome env healthy secret call w = (
  webhook_refused env secret call w,
  λ oid pid o allowed order payment read paid.
      webhook_step env secret call w oid pid o allowed order payment read paid
      ∙ settle-tables env healthy oid pid o (Repo.get_by_id env oid w).1
      ∙ ap
          (λ (v : World). pure tt (record v {
            tick = suc (suc v.tick);
            db = settled o oid pid v.db;
            mails = v.mails ++ mail env o ∷ [];
          }))
          (read-quiet env oid w o read),
)
