-- ===== src/Orders/Status/Paths.antt =====
-- The life of an order: chains of the transitions that `CanTransition` allows.
use agentic_mudahurus.Shared.{◌≡◌, ◌≢◌, refl, ◌⊎◌, inl, inr, Bool, true, false, subst, arith}
use agentic_mudahurus.Schema.{
  Status, pending, payment_received, payment_accepted, shipped, expired, cancelled,
}
use agentic_mudahurus.Orders.Status.{can_transition}

pub data Reaches (s : Status) : Status → Type 0 where
  here : Reaches s s
  next : {t u : Status} → Reaches s t → can_transition t u ≡ true → Reaches s u

pub Reaches-trans : {s t u : Status} → Reaches s t → Reaches t u → Reaches s u
Reaches-trans p here = p
Reaches-trans p (next q e) = next (Reaches-trans p q) e

-- No transition leaves these.
abbrev pub is_final : Status → Bool
is_final shipped = true
is_final expired = true
is_final cancelled = true
is_final _ = false

final-can_transition : (s t : Status) → is_final s ≡ true → can_transition s t ≡ false
unfolding can_transition
final-can_transition shipped t h = refl
final-can_transition expired t h = refl
final-can_transition cancelled t h = refl
final-can_transition pending t h = cc
final-can_transition _ t h = cc

-- Shipped, expired and cancelled are final: along any chain of allowed transitions an order that
-- has come to one of them stays there.
pub final_stays : (s t : Status) → is_final s ≡ true → Reaches s t → t ≡ s
final_stays s t h here = refl
final_stays s u h (next {t = t} p e) =
    let stays = final_stays s t h p in let stuck = final-can_transition t u (rw stays h) in cc

before_shipped : (s : Status) → can_transition s shipped ≡ true → s ≡ payment_accepted
unfolding can_transition
before_shipped s h = ground arith

before_accepted : (s : Status) → can_transition s payment_accepted ≡ true → s ≡ payment_received
unfolding can_transition
before_accepted s h = ground arith

-- The chain passes through the status `v`, its ends included.
abbrev pub Visits : {s t : Status} → Status → Reaches s t → Type 0
Visits {s} v here = s ≡ v
Visits {t} v (next p e) = (t ≡ v) ⊎ Visits v p

Visits-end : {s t : Status} (p : Reaches s t) → Visits t p
Visits-end here = refl
Visits-end (next p e) = inl refl

Visits-received :
    {s t : Status} (p : Reaches s t)
    → t ≡ payment_accepted
    → s ≢ payment_accepted
    → Visits payment_received p
Visits-received here e ne = absurd (ne e)
Visits-received (next {t = t} p step) e ne =
    let from = before_accepted t (rw e at step) in inr (subst (λ v. Visits v p) from (Visits-end p))

Visits-both :
    {s t : Status} (p : Reaches s t)
    → t ≡ shipped
    → s ≢ shipped
    → s ≢ payment_accepted
    → Visits payment_received p × Visits payment_accepted p
Visits-both here e ne na = absurd (ne e)
Visits-both (next {t = t} p step) e ne na =
    let from = before_shipped t (rw e at step) in
    (inr (Visits-received p from na), inr (subst (λ v. Visits v p) from (Visits-end p)))

-- Every chain of the transitions that the table allows, from pending to shipped, passes through
-- payment_received and through payment_accepted.
pub shipped_after_payment :
    (p : Reaches pending shipped) → Visits payment_received p × Visits payment_accepted p
shipped_after_payment p = Visits-both p refl (λ e. cc e) (λ e. cc e)
