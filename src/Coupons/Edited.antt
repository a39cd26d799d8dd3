-- ===== src/Coupons/Edited.antt =====
-- What a coupon is after it is changed or deleted.
use agentic_mudahurus.Shared.{
  suc, ◌≡◌, ◌≢◌, ◌↔◌, ◌<◌, refl, true, Option, sym, ◌∙◌, ap, Bool, none, some, List, [], ◌∷◌, find,
  find-update_where, find-holds, update_where, delete_where, none_or_some, inl, inr, arith,
}
use agentic_mudahurus.Schema.{Uuid, Time, CouponRow}
use agentic_mudahurus.World.{Env, World, ok, statement, affected, time_now, ◌>>=◌}
use agentic_mudahurus.Coupons.{
  Coupon, is_coupon, is_past, with_columns, scanned, update, delete, get,
}

update-ok :
    (env : Env) (c : CouponRow) (w : World)
    → (update env c w).0 ≡ ok tt
    → (update env c w).1.db.coupons
      ≡ update_where (is_coupon c.tenant_id c.id) (with_columns c) w.db.coupons
unfolding update affected statement
update-ok env c w h = ground arith

delete-ok :
    (env : Env) (t id : Uuid) (w : World)
    → (delete env t id w).0 ≡ ok tt
    → (delete env t id w).1.db.coupons ≡ delete_where (is_coupon t id) w.db.coupons
unfolding delete affected statement
delete-ok env t id w h = ground arith

get-ok :
    (env : Env) (t id : Uuid) (w : World) (d : Coupon)
    → (get env t id w).0 ≡ ok d
    → (c : CouponRow) × (find (is_coupon t id) w.db.coupons ≡ some c)
      × (d ≡ scanned (env.now (suc w.tick)) c)
unfolding get ◌>>=◌ time_now
get-ok env t id w d h = elim (none_or_some (find (is_coupon t id) w.db.coupons)) [
  | inl e ↦ absurd (ground arith)
  | inr (c, e) ↦ (c, e, ground arith)
]

updated-row :
    (t id : Uuid) (c d : CouponRow) (cs : List CouponRow)
    → find (is_coupon t id) (update_where (is_coupon t id) (with_columns c) cs) ≡ some d
    → (old : CouponRow) × (find (is_coupon t id) cs ≡ some old) × (with_columns c old ≡ d)
updated-row t id c d cs found =
    let seen =
      find-update_where (is_coupon t id) (is_coupon t id) (with_columns c) cs (λ x. refl) in
    elim (none_or_some (find (is_coupon t id) cs)) [
      | inl e ↦ absurd (cc (rw e at seen, found))
      | inr (old, e) ↦
          let hit = find-holds (is_coupon t id) cs old e in
          (old, e, cc (rw (e, hit) at seen, found))
    ]

find-deleted : (p : CouponRow → Bool) (cs : List CouponRow) → find p (delete_where p cs) ≡ none
find-deleted p [] = refl
find-deleted p (c ∷ cs) = ground (arith, find-deleted p cs)

-- The coupon `d` that a read at the time `now` shows has what the update `c` asked for, the number that
-- both have, and the time at which the row `old` was created.
pub record IsCurrent (now : Time) (c old : CouponRow) (d : Coupon) : Type 0 where
  pub id : d.id ≡ c.id
  pub product_id : d.product_id ≡ c.product_id
  pub campaign : d.campaign ≡ c.campaign
  pub description : d.description ≡ c.description
  pub expired_date : d.expired_date ≡ c.expired_date
  pub created_at : d.created_at ≡ old.created_at
  pub expired : (d.expired ≡ true) ↔ ((date : Time) × (c.expired_date ≡ some date) × (date < now))

is_past-date :
    (now : Time) (date : Option Time)
    → (is_past now date ≡ true) ↔ ((t : Time) × (date ≡ some t) × (t < now))
is_past-date now none = (λ h. absurd (cc h), λ (t, e, _). absurd (cc e))
is_past-date now (some t) =
    (λ h. (t, refl, ground arith), λ (r, e, past). let same : t ≡ r = cc in rw same ground arith)

scanned-IsCurrent :
    (now : Time) (c old seen : CouponRow) (d : Coupon)
    → old.id ≡ c.id
    → with_columns c old ≡ seen
    → d ≡ scanned now seen
    → IsCurrent now c old d
scanned-IsCurrent now c old seen d own same shown =
    let all : d ≡ scanned now (with_columns c old) = shown ∙ ap (scanned now) (sym same) in
    record {
      id = ap (λ (x : Coupon). x.id) all ∙ own;
      product_id = ap (λ (x : Coupon). x.product_id) all;
      campaign = ap (λ (x : Coupon). x.campaign) all;
      description = ap (λ (x : Coupon). x.description) all;
      expired_date = ap (λ (x : Coupon). x.expired_date) all;
      created_at = ap (λ (x : Coupon). x.created_at) all;
      expired = rw (ap (λ (x : Coupon). x.expired) all) (is_past-date now c.expired_date);
    }

-- What a coupon is once it is updated: a read of the same coupon that follows the update, if it returns
-- a coupon, returns one with the number, the product, the campaign, the description and the date of the
-- update and the time of creation of the row there was, and marks it as expired exactly if it has a
-- date and that date lies before the time of the read. And after a deletion, no read of that coupon
-- returns one.
pub edited_coupon :
    (env : Env) (c : CouponRow) (w : World)
    → ((d : Coupon)
        → (update env c w).0 ≡ ok tt
        → (get env c.tenant_id c.id (update env c w).1).0 ≡ ok d
        → (old : CouponRow) × (find (is_coupon c.tenant_id c.id) w.db.coupons ≡ some old)
          × IsCurrent (env.now (suc (update env c w).1.tick)) c old d)
      × ((d : Coupon)
          → (delete env c.tenant_id c.id w).0 ≡ ok tt
          → (get env c.tenant_id c.id (delete env c.tenant_id c.id w).1).0 ≢ ok d)
edited_coupon env c w = (
  λ d updated read.
      let v = (update env c w).1 in
      let (seen, found, shown) = get-ok env c.tenant_id c.id v d read in
      let (old, was, same) = updated-row c.tenant_id c.id c seen w.db.coupons (
        ap (λ cs. find (is_coupon c.tenant_id c.id) cs) (sym (update-ok env c w updated))
        ∙ found) in
      let hit = find-holds (is_coupon c.tenant_id c.id) w.db.coupons old was in
      let own : old.id ≡ c.id = ground arith in
      (old, was, scanned-IsCurrent (env.now (suc v.tick)) c old seen d own same shown),
  λ d deleted read.
      let v = (delete env c.tenant_id c.id w).1 in
      let (seen, found, _) = get-ok env c.tenant_id c.id v d read in
      let gone =
        ap (λ cs. find (is_coupon c.tenant_id c.id) cs) (delete-ok env c.tenant_id c.id w deleted)
        ∙ find-deleted (is_coupon c.tenant_id c.id) w.db.coupons in
      cc (gone, found),
)
