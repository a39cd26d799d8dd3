-- ===== src/Orders/Status.antt =====
-- api/internal/orders/repo.go: the statuses of an order and `CanTransition`.
pub mod Paths
use agentic_mudahurus.Shared.{
  Bool, true, false, List, [], ◌∷◌, ◌||◌, Text, text_eq, text_eq_sound, text_eq_refl, ◌≡◌, refl, ap,
  any, arith,
}
use agentic_mudahurus.Schema.{
  Status, pending, payment_received, payment_accepted, shipped, expired, cancelled, rejected, other,
}

-- a == b on the strings
unfoldable pub status_eq : Status → Status → Bool
status_eq pending pending = true
status_eq payment_received payment_received = true
status_eq payment_accepted payment_accepted = true
status_eq shipped shipped = true
status_eq expired expired = true
status_eq cancelled cancelled = true
status_eq rejected rejected = true
status_eq (other s) (other t) = text_eq s t
status_eq _ _ = false

-- The map `transitions`; a key that is not there has no value.
unfoldable pub transitions : Status → List Status
transitions pending = payment_received ∷ cancelled ∷ expired ∷ []
transitions payment_received = payment_accepted ∷ rejected ∷ cancelled ∷ []
transitions payment_accepted = shipped ∷ cancelled ∷ []
transitions rejected = payment_received ∷ []
transitions _ = []

unfoldable pub can_transition : Status → Status → Bool
unfolding transitions status_eq
can_transition from to = any (λ t. status_eq t to) (transitions from)

-- CHECK (status IN (…)) of the table
unfoldable pub is_order_status : Status → Bool
is_order_status (other s) = false
is_order_status _ = true

pub status_eq_sound : (s t : Status) → status_eq s t ≡ true → s ≡ t
unfolding status_eq
status_eq_sound pending t h = ground arith
status_eq_sound payment_received t h = ground arith
status_eq_sound payment_accepted t h = ground arith
status_eq_sound shipped t h = ground arith
status_eq_sound expired t h = ground arith
status_eq_sound cancelled t h = ground arith
status_eq_sound rejected t h = ground arith
status_eq_sound (other s) (other t) h = ap other (text_eq_sound s t h)
status_eq_sound (other s) t h = ground arith

pub status_eq_refl : (s : Status) → status_eq s s ≡ true
unfolding status_eq
status_eq_refl (other s) = text_eq_refl s
status_eq_refl _ = refl
