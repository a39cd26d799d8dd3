-- ===== src/Orders/Service/Lifecycle/Rows.antt =====
-- How the status of the order with a given tenant and id may change between two tables.
use mathlib.Core.Option
use agentic_mudahurus.Shared.{
  ◌≡◌, refl, ap, Bool, true, Option, none, some, List, [], ◌∷◌, ◌++◌, arith, if◌then◌else◌, inl,
  inr, Bool-cases, find, update_where, find-holds, find-update_where,
}
use agentic_mudahurus.Schema.{Uuid, Status, pending, OrderRow}
use agentic_mudahurus.Orders.Status.Paths.{Reaches, here, Reaches-trans}
use agentic_mudahurus.Orders.Repo.{is_order}

abbrev pub status_at : Uuid → Uuid → List OrderRow → Option Status
status_at t id os = Option.map (λ o. o.status) (find (is_order t id) os)

-- A new order is pending, or on its way from there; one that was there is there still.
abbrev pub Moved : Option Status → Option Status → Type 0
Moved none none = Unit
Moved none (some v) = Reaches pending v
Moved (some s) none = ⊥
Moved (some s) (some v) = Reaches s v

pub record IsLawful (before os : List OrderRow) : Type 0 where
  pub holds : (t id : Uuid) → Moved (status_at t id before) (status_at t id os)

pub Moved-refl : (s : Option Status) → Moved s s
Moved-refl none = tt
Moved-refl (some s) = here

pub Moved-trans : (a b c : Option Status) → Moved a b → Moved b c → Moved a c
Moved-trans none none none h k = tt
Moved-trans none none (some v) h k = k
Moved-trans none (some s) none h k = absurd k
Moved-trans none (some s) (some v) h k = Reaches-trans h k
Moved-trans (some s) none c h k = absurd h
Moved-trans (some s) (some v) none h k = absurd k
Moved-trans (some s) (some v) (some w) h k = Reaches-trans h k

pub IsLawful-refl : (os : List OrderRow) → IsLawful os os
IsLawful-refl os = record { holds = λ t id. Moved-refl (status_at t id os) }

pub IsLawful-trans : (a b c : List OrderRow) → IsLawful a b → IsLawful b c → IsLawful a c
IsLawful-trans a b c h k = record {
  holds = λ t id.
      Moved-trans (status_at t id a) (status_at t id b) (status_at t id c) (h.holds t id)
        (k.holds t id);
}

Moved-insert :
    (q : OrderRow → Bool) (os : List OrderRow) (o : OrderRow)
    → o.status ≡ pending
    → Moved
        (Option.map (λ x. x.status) (find q os))
        (Option.map (λ x. x.status) (find q (os ++ o ∷ [])))
Moved-insert q [] o e = elim (Bool-cases (q o)) [
  | inl hit ↦ rw hit (rw e here)
  | inr miss ↦ rw miss tt
]
Moved-insert q (x ∷ xs) o e = elim (Bool-cases (q x)) [
  | inl hit ↦ rw hit here
  | inr miss ↦ rw miss (Moved-insert q xs o e)
]

-- An INSERT of a pending order.
pub IsLawful-insert :
    (os : List OrderRow) (o : OrderRow) → o.status ≡ pending → IsLawful os (os ++ o ∷ [])
IsLawful-insert os o e = record { holds = λ t id. Moved-insert (is_order t id) os o e }

Moved-update :
    (found : Option OrderRow) (p : OrderRow → Bool) (f : OrderRow → OrderRow)
    → ((x : OrderRow) → found ≡ some x → p x ≡ true → Reaches x.status (f x).status)
    → Moved
        (Option.map (λ x. x.status) found)
        (Option.map (λ x. x.status) (Option.map (λ x. if p x then f x else x) found))
Moved-update none p f h = tt
Moved-update (some x) p f h = elim (Bool-cases (p x)) [
  | inl hit ↦ rw hit (h x refl hit)
  | inr miss ↦ rw miss here
]

-- An UPDATE that keeps ids and tenants, and moves each order that can be found by allowed steps.
pub IsLawful-update :
    (os : List OrderRow) (p : OrderRow → Bool) (f : OrderRow → OrderRow)
    → ((t id : Uuid) (x : OrderRow) → is_order t id (f x) ≡ is_order t id x)
    → ((t id : Uuid) (x : OrderRow)
        → find (is_order t id) os ≡ some x
        → p x ≡ true
        → Reaches x.status (f x).status)
    → IsLawful os (update_where p f os)
IsLawful-update os p f same moves = record {
  holds = λ t id.
      rw (find-update_where (is_order t id) p f os (same t id))
        (Moved-update (find (is_order t id) os) p f (moves t id));
}

-- Two searches that meet in a row are one search.
pub same_search :
    (t id t' id' : Uuid) (os : List OrderRow) (x y : OrderRow)
    → find (is_order t id) os ≡ some x
    → is_order t' id' x ≡ true
    → find (is_order t' id') os ≡ some y
    → x ≡ y
same_search t id t' id' os x y e hit e' =
    let holds = find-holds (is_order t id) os x e in
    let same_t : t ≡ t' = ground arith in
    let same_id : id ≡ id' = ground arith in
    cc (
      ap (λ (v : Uuid). find (is_order v id) os) same_t,
      ap (λ (v : Uuid). find (is_order t' v) os) same_id,
    )
