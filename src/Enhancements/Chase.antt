-- ===== src/Enhancements/Chase.antt =====
-- api/internal/enhancements/eh2_fulfillment.go, and module.go: the pending orders near their expiry. The
-- formatting of a time is an argument. The loop of StartBackground is a number of sweeps.
pub mod Agreement
use agentic_mudahurus.Shared.{
  ℕ, zero, suc, ◌+◌, ◌*◌, Bool, true, false, List, [], ◌∷◌, ◌++◌, map, not, ◌&&◌, ◌||◌,
  if◌then◌else◌, ltb, leb, ◌==◌, any, select, order_by, take, Text, codes, text_eq,
}
use agentic_mudahurus.Shared.Int.{ℤ}
use agentic_mudahurus.Schema.{Uuid, Time, Status, pending, OrderRow, PaymentRow, Db}
use agentic_mudahurus.World.{
  Result, ok, err, Env, Action, pure, statement, time_now, try, ◌>>=◌, ◌>>◌,
}
use agentic_mudahurus.Tenancy.Identity.{Context, tid}
use agentic_mudahurus.Orders.Status.{status_eq}
use agentic_mudahurus.Enhancements.Notify.{Notification, notify_email}

pub record ChaseDecision : Type 0 where
  pub order_id : Text
  pub should_chase : Bool
  pub reason : Text

-- 24*time.Hour
abbrev pub day : Time
day = 24 * 3600

-- `DecideChase`
unfoldable pub decide_chase :
    (order_id : Text) (status : Status) (expires_at : Time) (has_payment : Bool) (now : Time)
    → ChaseDecision
decide_chase order_id status expires_at has_payment now =
    if not (status_eq status pending) || has_payment
    then record {
      order_id = order_id;
      should_chase = false;
      reason = codes "not an unpaid pending order";
    }
    else if leb expires_at (now + day) && ltb now expires_at
    then record {
      order_id = order_id;
      should_chase = true;
      reason = codes "expires within 24h, no payment";
    }
    else record { order_id = order_id; should_chase = false; reason = codes "not yet due" }

-- EXISTS (SELECT 1 FROM payments p WHERE p.order_id = o.id)
abbrev pub has_payment : Db → OrderRow → Bool
has_payment db o = any (λ p. p.order_id == o.id) db.payments

-- the WHERE clause of both queries, less the tenant
abbrev pub is_due : Time → Db → OrderRow → Bool
is_due now db o =
    status_eq o.status pending
    && ltb now o.expired_date
    && leb o.expired_date (now + day)
    && not (has_payment db o)

pub record Candidate : Type 0 where
  pub id : Uuid
  pub full_name : Text
  pub email : Text
  pub contact_no : Text
  pub expired_at : Time
  pub total : ℤ
  pub reason : Text

module _ (env : Env) (format_time : Time → Text) where
  -- x.ID.String()[:8]
  abbrev pub short_id : Uuid → Text
  short_id id = take 8 (env.uuid_string id)

  abbrev pub reminder : OrderRow → Notification
  reminder o = record {
    channel = codes "email";
    recipient = o.email;
    template = codes "payment_reminder";
    vars = (codes "order_id", short_id o.id) ∷ (codes "expiry", format_time o.expired_date) ∷ [];
  }

  abbrev candidate : OrderRow → Time → Candidate
  candidate o now = record {
    id = o.id;
    full_name = o.full_name;
    email = o.email;
    contact_no = o.contact_no;
    expired_at = o.expired_date;
    total = o.total_price;
    reason = (decide_chase (env.uuid_string o.id) pending o.expired_date false now).reason;
  }

  abbrev pub maybe_remind : Bool → OrderRow → Action (Unit {0})
  maybe_remind wanted o =
      if wanted then (do ignored ← try (notify_email (reminder o)); pure tt) else pure tt

  unfoldable pub list_candidates : Bool → List OrderRow → Action (List Candidate)
  unfolding decide_chase
  list_candidates wanted [] = pure []
  list_candidates wanted (o ∷ os) = do
    now ← time_now env
    maybe_remind wanted o
    rest ← list_candidates wanted os
    pure (candidate o now ∷ rest)

  abbrev pub sooner : OrderRow → OrderRow → Bool
  sooner o p = leb o.expired_date p.expired_date

  -- `chaseCandidates`, with the query parameter `notify`
  unfoldable pub chase_candidates : Context → Text → Action (List Candidate)
  unfolding list_candidates
  chase_candidates ctx notify = do
    rows ← statement env λ k db. (
      ok (
          order_by sooner
            (select (λ o. o.tenant_id == tid ctx && is_due (env.now k) db o) db.orders)),
      db,
    )
    list_candidates (text_eq notify (codes "true")) rows

  unfoldable pub remind_all : List OrderRow → Action (Unit {0})
  remind_all [] = pure tt
  remind_all (o ∷ os) = do ignored ← try (notify_email (reminder o)); remind_all os

  remind_rows : Result (List OrderRow) → Action (Unit {0})
  remind_rows (err e) = pure tt
  remind_rows (ok rows) = remind_all rows

  -- `runChaseSweep`, over all tenants; an error of the query ends it. The query has no ORDER BY: the
  -- order in which the database gives the rows is an argument.
  unfoldable pub run_chase_sweep : (arrange : List OrderRow → List OrderRow) → Action (Unit {0})
  unfolding remind_rows remind_all
  run_chase_sweep arrange = do
    rows ←
        try (statement env (λ k db. (ok (arrange (select (is_due (env.now k) db) db.orders)), db)))
    remind_rows rows

-- the ticks that reach the loop before the context is cancelled
unfoldable pub chase_loop :
    Env → (Time → Text) → (arrange : List OrderRow → List OrderRow) → ℕ → Action (Unit {0})
unfolding run_chase_sweep
chase_loop env format_time arrange zero = pure tt
chase_loop env format_time arrange (suc ticks) = do
  run_chase_sweep env format_time arrange
  chase_loop env format_time arrange ticks

-- flags.go, `Enabled`; a variable that is not set is empty
unfoldable pub enabled : (getenv : Text → Text) → Text → Bool
enabled getenv flag = text_eq (getenv (codes "MH_" ++ flag)) (codes "true")

-- `StartBackground`, with the ticks that reach its loop
unfoldable pub start_background :
    (getenv : Text → Text)
    → Env
    → (Time → Text)
    → (arrange : List OrderRow → List OrderRow) → ℕ
    → Action (Unit {0})
unfolding enabled chase_loop
start_background getenv env format_time arrange ticks =
    if enabled getenv (codes "EH2_FULFILLMENT")
    then chase_loop env format_time arrange ticks
    else pure tt

-- `NoopTrackingProvider.Track`
pub record TrackingStatus : Type 0 where
  pub tracking_no : Text
  pub state : Text
  pub updated_at : Time

unfoldable pub track : Env → Text → Action TrackingStatus
track env tracking_no = do
  now ← time_now env
  pure (record { tracking_no = tracking_no; state = codes "unknown"; updated_at = now })
