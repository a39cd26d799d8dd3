-- ===== src/Enhancements/Chase/Agreement.antt =====
-- The query, the decision and the sweep agree on which orders are chased.
use agentic_mudahurus.Shared.{
  suc, fun_ext, ◌≡◌, refl, sym, ◌∙◌, ap, Bool, false, List, [], ◌∷◌, ◌++◌, map, append_assoc,
  append-nil, select, subst, take, arith, Text, codes,
}
use mathlib.Core.List.{Perm}
use mathlib.Core.List.Perm
use agentic_mudahurus.Schema.{Time, OrderRow, Db}
use agentic_mudahurus.World.{Env, World, Message, pure, try, ◌>>=◌}
use agentic_mudahurus.Auth.Service.{send}
use agentic_mudahurus.Enhancements.Notify.{notify_email, render}
use agentic_mudahurus.Enhancements.Chase.{
  decide_chase, has_payment, is_due, remind_all, run_chase_sweep,
}

-- The WHERE clause selects an order exactly if DecideChase, given the order, whether it has a payment and the
-- same time, decides to chase it.
pub where_clause_decides :
    (now : Time) (db : Db) (o : OrderRow) (id : Text)
    → is_due now db o
      ≡ (decide_chase id o.status o.expired_date (has_payment db o) now).should_chase
unfolding decide_chase
where_clause_decides now db o id = ground arith

module _ (env : Env) (format_time : Time → Text) where
  -- The mail that reminds of an order.
  abbrev pub mail : OrderRow → Message
  mail o = record {
    to = o.email;
    subject = codes "MUDAHURUS: payment_reminder";
    body = render (codes "payment_reminder") (
        (codes "order_id", take 8 (env.uuid_string o.id))
        ∷ (codes "expiry", format_time o.expired_date)
        ∷ []);
  }

  remind_all-mails :
      (os : List OrderRow) (w : World)
      → (remind_all env format_time os w).1 ≡ record w { mails = w.mails ++ map mail os }
  unfolding remind_all notify_email send try pure ◌>>=◌
  remind_all-mails [] w = ap (λ ms. record w { mails = ms }) (sym (append-nil w.mails))
  remind_all-mails (o ∷ os) w =
      remind_all-mails os (record w { mails = w.mails ++ mail o ∷ [] })
      ∙ ap (λ ms. record w { mails = ms }) (append_assoc w.mails (mail o ∷ []) (map mail os))

abbrev pub chased : Env → Time → Db → OrderRow → Bool
chased env now db o =
    (decide_chase (env.uuid_string o.id) o.status o.expired_date (has_payment db o)
      now).should_chase

swept :
    (env : Env) (format_time : Time → Text) (arrange : List OrderRow → List OrderRow) (w : World)
    → env.fails w.tick ≡ false
    → run_chase_sweep env format_time arrange w
      ≡ remind_all env format_time
          (arrange (select (is_due (env.now w.tick) w.db) w.db.orders))
          (record w { tick = suc w.tick })
unfolding run_chase_sweep try ◌>>=◌
swept env format_time arrange w up = rw up refl

-- The background sweep. If its query does not fail, it sends, in the order in which the database gives the
-- rows, one reminder for each order of any seller that DecideChase chases at that time, and no other
-- mail: to the order's address, the template payment_reminder filled in with the first eight
-- characters of its id and with its expiry. It changes no table, emits no event and stores no file.
pub sweep_reminds :
    (env : Env) (format_time : Time → Text) (arrange : List OrderRow → List OrderRow)
    (some_order : (os : List OrderRow) → Perm (arrange os) os) (w : World)
    → env.fails w.tick ≡ false
    → (ms : List Message) × Perm ms
        (map (mail env format_time) (select (chased env (env.now w.tick) w.db) w.db.orders))
      × ((run_chase_sweep env format_time arrange w).1
          ≡ record w { tick = suc w.tick; mails = w.mails ++ ms })
sweep_reminds env format_time arrange some_order w up =
    let due = select (is_due (env.now w.tick) w.db) w.db.orders in
    let agree : is_due (env.now w.tick) w.db ≡ chased env (env.now w.tick) w.db =
      fun_ext (λ o. where_clause_decides (env.now w.tick) w.db o (env.uuid_string o.id)) in
    (
      map (mail env format_time) (arrange due),
      subst
          (λ p.
            Perm (map (mail env format_time) (arrange due))
              (map (mail env format_time) (select p w.db.orders)))
          agree (Perm.map (mail env format_time) (some_order due)),
      ap (λ s. s.1) (swept env format_time arrange w up)
          ∙ remind_all-mails env format_time (arrange due) (record w { tick = suc w.tick }),
    )
