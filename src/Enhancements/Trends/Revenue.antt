-- ===== src/Enhancements/Trends/Revenue.antt =====
-- The series of monthly sales accounts for every sale.
use agentic_mudahurus.Shared.{
  ◌≡◌, refl, sym, ◌∙◌, ap, Bool, true, false, List, [], ◌∷◌, if◌then◌else◌, subst, select, arith,
  Text, text_eq, text_eq_sound, Bool-cases, inl, inr,
}
use agentic_mudahurus.Shared.Int.{ℤ, pos, ◌+ℤ◌, +ℤ_assoc, int_laws}
use agentic_mudahurus.Schema.{Time, OrderRow, Db}
use agentic_mudahurus.World.{Env, World, ok, pure, statement}
use agentic_mudahurus.World.Inversion.{chain-ok, query-ok}
use agentic_mudahurus.Tenancy.Identity.{Context, tid}
use agentic_mudahurus.Enhancements.Trends.{
  SalesPoint, Insight, text_ltb, add_sale, group_sales, analyze_trend, analytics_insights, is_sale,
}

right_comm : (a b c : ℤ) → a +ℤ b +ℤ c ≡ a +ℤ c +ℤ b
right_comm a b c = grind int_laws

-- What the points of a month add up to, and the sales of that month.
abbrev pub total_in : Text → List SalesPoint → ℤ
total_in month [] = pos 0
total_in month (p ∷ ps) =
    let rest = total_in month ps in if text_eq p.period month then rest +ℤ p.total else rest

abbrev pub sales_in : (Time → Text) → Text → List OrderRow → ℤ
sales_in month_of month [] = pos 0
sales_in month_of month (o ∷ os) =
    let rest = sales_in month_of month os in
    if text_eq (month_of o.created_at) month then rest +ℤ o.total_price else rest

total_in-add_sale :
    (month k : Text) (a : ℤ) (ps : List SalesPoint)
    → total_in month (add_sale k a ps)
      ≡ (if text_eq k month then total_in month ps +ℤ a else total_in month ps)
unfolding add_sale
total_in-add_sale month k a [] = refl
total_in-add_sale month k a (p ∷ ps) = elim (Bool-cases (text_eq p.period k)) [
  | inl e ↦ rw (e, text_eq_sound p.period k e) (both (text_eq k month) (total_in month ps) p.total)
  | inr e ↦ elim (Bool-cases (text_ltb k p.period)) [
    | inl f ↦ rw (e, f) refl
    | inr f ↦
        rw (e, f, total_in-add_sale month k a ps)
          (apart (text_eq p.period month) (text_eq k month) (total_in month ps) p.total)
  ]
]
  where
    both :
        (m : Bool) (rest x : ℤ)
        → (if m then rest +ℤ (x +ℤ a) else rest)
          ≡ (if m then (if m then rest +ℤ x else rest) +ℤ a else (if m then rest +ℤ x else rest))
    both true rest x = sym (+ℤ_assoc rest x a)
    both false rest x = refl

    apart :
        (n m : Bool) (rest x : ℤ)
        → (if n then (if m then rest +ℤ a else rest) +ℤ x else (if m then rest +ℤ a else rest))
          ≡ (if m then (if n then rest +ℤ x else rest) +ℤ a else (if n then rest +ℤ x else rest))
    apart true true rest x = right_comm rest a x
    apart true false rest x = refl
    apart false true rest x = refl
    apart false false rest x = refl

total_in-group_sales :
    (month_of : Time → Text) (month : Text) (os : List OrderRow)
    → total_in month (group_sales month_of os) ≡ sales_in month_of month os
unfolding group_sales
total_in-group_sales month_of month [] = refl
total_in-group_sales month_of month (o ∷ os) =
    total_in-add_sale month (month_of o.created_at) o.total_price (group_sales month_of os)
    ∙ rw (total_in-group_sales month_of month os) refl

-- ---- the order of the months ----

abbrev pub after : Text → List SalesPoint → Bool
after month [] = true
after month (p ∷ ps) = text_ltb month p.period

-- The months ascend, so that each has one point.
abbrev pub IsSeries : List SalesPoint → Type 0
IsSeries [] = Unit
IsSeries (p ∷ ps) = (after p.period ps ≡ true) × IsSeries ps

text_ltb_total : (s t : Text) → text_eq s t ≡ false → text_ltb t s ≡ false → text_ltb s t ≡ true
unfolding text_ltb text_eq
text_ltb_total [] [] ne no_lt = cc
text_ltb_total [] (d ∷ t) ne no_lt = refl
text_ltb_total (c ∷ s) [] ne no_lt = cc
text_ltb_total (c ∷ s) (d ∷ t) ne no_lt = let rest = text_ltb_total s t in ground arith

after-add_sale :
    (m k : Text) (a : ℤ) (ps : List SalesPoint)
    → text_ltb m k ≡ true
    → after m ps ≡ true
    → after m (add_sale k a ps) ≡ true
unfolding add_sale
after-add_sale m k a [] h g = h
after-add_sale m k a (p ∷ ps) h g = ground arith

add_sale-IsSeries :
    (k : Text) (a : ℤ) (ps : List SalesPoint) → IsSeries ps → IsSeries (add_sale k a ps)
unfolding add_sale
add_sale-IsSeries k a [] h = (refl, tt)
add_sale-IsSeries k a (p ∷ ps) (here, h) = elim (Bool-cases (text_eq p.period k)) [
  | inl e ↦ rw e (here, h)
  | inr e ↦ elim (Bool-cases (text_ltb k p.period)) [
    | inl f ↦ rw (e, f) (f, (here, h))
    | inr f ↦
        rw (e, f)
          (
            after-add_sale p.period k a ps (text_ltb_total p.period k e f) here,
            add_sale-IsSeries k a ps h,
          )
  ]
]

group_sales-IsSeries :
    (month_of : Time → Text) (os : List OrderRow) → IsSeries (group_sales month_of os)
unfolding group_sales
group_sales-IsSeries month_of [] = tt
group_sales-IsSeries month_of (o ∷ os) =
    add_sale-IsSeries (month_of o.created_at) o.total_price (group_sales month_of os)
      (group_sales-IsSeries month_of os)

-- The series of the sales analysis, in whole sen. If the request is answered: the months of the series ascend,
-- one point each; and the total of every month is the sum of the seller's accepted and shipped orders
-- of that month, and zero for a month without a point.
pub insights_account :
    (env : Env) (month_of : Time → Text) (ctx : Context) (w : World) (series : List SalesPoint)
    (insights : List Insight)
    → (analytics_insights month_of env ctx w).0 ≡ ok (series, insights)
    → IsSeries series
      × ((month : Text)
          → total_in month series
            ≡ sales_in month_of month (select (is_sale (tid ctx)) w.db.orders))
unfolding analytics_insights pure
insights_account env month_of ctx w series insights h =
    let answer = λ (db : Db). group_sales month_of (select (is_sale (tid ctx)) db.orders) in
    let (points, read, e) =
      chain-ok (statement env (λ k db. (ok (answer db), db))) _ w (series, insights) refl h in
    let e_points : answer w.db ≡ points = cc (query-ok env (λ db. ok (answer db)) w points read) in
    let shown : (◌≡◌ {A = List SalesPoint × List Insight} (points, analyze_trend points)
        (series, insights)) =
      cc (ap (λ s. s.0) e, h) in
    let same : answer w.db ≡ series =
      e_points ∙ ap (λ (p : List SalesPoint × List Insight). p.0) shown in
    (
      subst IsSeries same (group_sales-IsSeries month_of (select (is_sale (tid ctx)) w.db.orders)),
      λ month.
          ap (total_in month) (sym same)
          ∙ total_in-group_sales month_of month (select (is_sale (tid ctx)) w.db.orders),
    )
