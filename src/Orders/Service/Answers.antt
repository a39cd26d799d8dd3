-- ===== src/Orders/Service/Answers.antt =====
-- What the enrichment from the catalogue makes of the lines of a request.
use agentic_mudahurus.Shared.{
  ℕ, ◌≡◌, ◌≢◌, ◌⊎◌, refl, sym, subst, ◌∙◌, ap, true, false, none, some, List, [], ◌∷◌, map, arith,
  find, is_empty, inl, inr, none_or_some, Bool-cases,
}
use agentic_mudahurus.Shared.Int.{ℤ, pos, negsuc, leb_ℤ, is_zero_ℤ}
use agentic_mudahurus.Schema.{Uuid, ProductRow, OrderItem, Product, Db}
use agentic_mudahurus.World.{
  Env, World, Result, ok, err, pure, try, sign_url, map_error, mapped, continue, ◌>>=◌,
}
use agentic_mudahurus.World.Inversion.{bind-ok}
use agentic_mudahurus.Catalog.Repo as Products
use agentic_mudahurus.Catalog.Repo.{has_sku}
use agentic_mudahurus.Catalog.Service as Catalog
use agentic_mudahurus.Catalog.Service.Isolation.{Preserves-service_get_product_by_sku}
use agentic_mudahurus.Orders.Repo.{fill_totals}
use agentic_mudahurus.Orders.Repo.Creation.{content}
use agentic_mudahurus.Orders.Service.{ItemInput, price_or, enrich, build_items}

is_zero-pos : (n : ℤ) → is_zero_ℤ n ≡ true → n ≡ pos 0
is_zero-pos (pos n) h = let zero : n ≡ 0 = ground arith in ap pos zero
is_zero-pos (negsuc n) h = absurd ground arith

price_kept : (asked listed : ℤ) → asked ≢ pos 0 → price_or asked listed ≡ asked
price_kept asked listed given = elim (Bool-cases (is_zero_ℤ asked)) [
  | inl e ↦ absurd (given (is_zero-pos asked e))
  | inr e ↦ rw e refl
]

-- The item of a line whose SKU is that of the product `p`: its price is the one asked for, or the
-- product's where that is zero.
pub record IsListed (p : ProductRow) (a : ItemInput) (i : OrderItem) : Type 0 where
  pub id : i.product_id ≡ some p.id
  pub name : i.product_name ≡ p.product_name
  pub kept : a.unit_price ≢ pos 0 → i.unit_price ≡ a.unit_price
  pub looked_up : a.unit_price ≡ pos 0 → i.unit_price ≡ p.unit_price

-- The item of a line whose SKU was not resolved.
pub record IsUnlisted (a : ItemInput) (i : OrderItem) : Type 0 where
  pub id : i.product_id ≡ none
  pub name : i.product_name ≡ []
  pub kept : i.unit_price ≡ a.unit_price

module _ (env : Env) (t : Uuid) where
  -- The query for the SKU found nothing, or a statement failed.
  abbrev pub Unresolved : Db → ItemInput → Type 0
  Unresolved db a =
      (find (has_sku env t a.sku) db.products ≡ none) ⊎ ((k : ℕ) × (env.fails k ≡ true))

  pub record IsAnswer (db : Db) (i : OrderItem) (a : ItemInput) : Type 0 where
    pub sku : i.sku ≡ a.sku
    pub at_least : leb_ℤ a.quantity (pos 0) ≡ true → i.quantity ≡ pos 1
    pub as_asked : leb_ℤ a.quantity (pos 0) ≡ false → i.quantity ≡ a.quantity
    pub product :
        ((p : ProductRow) × (find (has_sku env t a.sku) db.products ≡ some p) × IsListed p a i)
        ⊎ (Unresolved db a × IsUnlisted a i)

  -- The items answer the lines that the client asked for, one by one.
  abbrev pub Answers : Db → List OrderItem → List ItemInput → Type 0
  Answers db [] [] = Unit
  Answers db (i ∷ is) (a ∷ qs) = IsAnswer db i a × Answers db is qs
  Answers db [] (a ∷ qs) = true ≡ false
  Answers db (i ∷ is) [] = true ≡ false

  same_content-IsAnswer :
      (db : Db) (i j : OrderItem) (a : ItemInput)
      → content j ≡ content i
      → IsAnswer db i a
      → IsAnswer db j a
  same_content-IsAnswer db i j a e h =
      let same_product : j.product_id ≡ i.product_id = cc in
      let same_name : j.product_name ≡ i.product_name = cc in
      let same_price : j.unit_price ≡ i.unit_price = cc in
      let same_sku : j.sku ≡ i.sku = cc in
      let same_quantity : j.quantity ≡ i.quantity = cc in
      record {
        sku = same_sku ∙ h.sku;
        at_least = λ low. same_quantity ∙ h.at_least low;
        as_asked = λ high. same_quantity ∙ h.as_asked high;
        product = elim h.product [
          | inl (p, found, l) ↦ inl (
            p,
            found,
            record {
              id = same_product ∙ l.id;
              name = same_name ∙ l.name;
              kept = λ given. same_price ∙ l.kept given;
              looked_up = λ zero. same_price ∙ l.looked_up zero;
            },
          )
          | inr (missing, u) ↦ inr (
            missing,
            record {
              id = same_product ∙ u.id;
              name = same_name ∙ u.name;
              kept = same_price ∙ u.kept;
            },
          )
        ];
      }

  pub Answers-content :
      (db : Db) (is js : List OrderItem) (qs : List ItemInput)
      → map content js ≡ map content is
      → Answers db is qs
      → Answers db js qs
  Answers-content db [] [] qs e h = h
  Answers-content db [] (j ∷ js) qs e h = cc
  Answers-content db (i ∷ is) [] qs e h = cc
  Answers-content db (i ∷ is) (j ∷ js) [] e h = h
  Answers-content db (i ∷ is) (j ∷ js) (a ∷ qs) e (here, h) =
      let same : content j ≡ content i = cc in
      let rest_same : map content js ≡ map content is = cc in
      (same_content-IsAnswer db i j a same here, Answers-content db is js qs rest_same h)

  pub Answers-fill_totals :
      (db : Db) (is : List OrderItem) (qs : List ItemInput)
      → Answers db is qs
      → Answers db (fill_totals is) qs
  unfolding fill_totals
  Answers-fill_totals db [] qs h = h
  Answers-fill_totals db (i ∷ is) [] h = h
  Answers-fill_totals db (i ∷ is) (a ∷ qs) (here, h) = (
    record {
      sku = here.sku;
      at_least = here.at_least;
      as_asked = here.as_asked;
      product = elim here.product [
        | inl (p, found, l) ↦
            inl (
              p,
              found,
              record { id = l.id; name = l.name; kept = l.kept; looked_up = l.looked_up },
            )
        | inr (missing, u) ↦ inr (missing, record { id = u.id; name = u.name; kept = u.kept })
      ];
    },
    Answers-fill_totals db is qs h,
  )

  -- What the look-up of a SKU came to.
  abbrev IsRead : Db → ItemInput → Result Product → Type 0
  IsRead db a (ok p) =
      (q : ProductRow) × (find (has_sku env t a.sku) db.products ≡ some q) × (p.row ≡ q)
  IsRead db a (err e) = Unresolved db a

  repo-IsRead :
      (a : ItemInput) (w : World) → IsRead w.db a (Products.get_product_by_sku env t a.sku w).0
  unfolding Products.get_product_by_sku Products.scan_product ◌>>=◌
  repo-IsRead a w = elim (Bool-cases (env.fails w.tick)) [
    | inl e ↦ rw e (inr (w.tick, e))
    | inr e ↦ rw e (elim (none_or_some (find (has_sku env t a.sku) w.db.products)) [
      | inl missing ↦ rw missing (inl missing)
      | inr (q, found) ↦ rw found (q, found, refl)
    ])
  ]

  attached-row :
      (p : Product) (w : World)
      → (q : Product) × ((Catalog.attach_image_url env p w).0 ≡ ok q) × (q.row ≡ p.row)
  unfolding Catalog.attach_image_url pure sign_url ◌>>=◌
  attached-row p w = elim (Bool-cases (is_empty p.image_key)) [
    | inl e ↦ rw e (p, refl, refl)
    | inr e ↦ rw e (elim (none_or_some (env.signed_get_url w.tick p.image_key 3600)) [
      | inl unsigned ↦ rw unsigned (p, refl, refl)
      | inr (url, made) ↦ rw made (record p { image_url = url }, refl, refl)
    ])
  ]

  attached-IsRead :
      (db : Db) (a : ItemInput) (r : Result Product) (w : World)
      → IsRead db a r
      → IsRead db a (continue (Catalog.attach_image_url env) (mapped Catalog.map_err r) w).0
  attached-IsRead db a (ok p) w (q, found, same) =
      let (x, done, row) = attached-row p w in rw done (q, found, row ∙ same)
  attached-IsRead db a (err e) w h = h

  service-IsRead :
      (a : ItemInput) (w : World) → IsRead w.db a (Catalog.get_product_by_sku env t a.sku w).0
  unfolding Catalog.get_product_by_sku map_error ◌>>=◌
  service-IsRead a w =
      attached-IsRead w.db a _ (Products.get_product_by_sku env t a.sku w).1 (repo-IsRead a w)

  enrich-IsAnswer :
      (db : Db) (a : ItemInput) (r : Result Product) → IsRead db a r → IsAnswer db (enrich a r) a
  unfolding enrich
  enrich-IsAnswer db a (ok p) (q, found, same) = record {
    sku = refl;
    at_least = λ low. ground arith;
    as_asked = λ high. ground arith;
    product = inl (
      q,
      found,
      record {
        id = ap (λ (x : ProductRow). some x.id) same;
        name = ap (λ (x : ProductRow). x.product_name) same;
        kept = λ given. price_kept a.unit_price p.unit_price given;
        looked_up = λ zero. rw zero (ap (λ (x : ProductRow). x.unit_price) same);
      },
    );
  }
  enrich-IsAnswer db a (err e) h = record {
    sku = refl;
    at_least = λ low. ground arith;
    as_asked = λ high. ground arith;
    product = inr (h, record { id = refl; name = refl; kept = refl });
  }

  pub build_items-Answers :
      (qs : List ItemInput) (w : World) (is : List OrderItem)
      → (build_items env t qs w).0 ≡ ok is
      → Answers w.db is qs
  unfolding build_items pure try
  build_items-Answers [] w is h =
      let none_asked : [] ≡ is = cc in subst (λ js. Answers w.db js []) none_asked tt
  build_items-Answers (a ∷ qs) w is h =
      let look_up = Catalog.get_product_by_sku env t a.sku in
      let (r, er, e) = bind-ok (try look_up) _ w is h in
      let w1 = (look_up w).1 in
      let (rest, es, e2) =
        bind-ok (build_items env t qs) (λ rest. pure (enrich a r ∷ rest)) w1 is
          (sym (ap (λ s. s.0) e) ∙ h) in
      let all : enrich a r ∷ rest ≡ is = cc (ap (λ s. s.0) (e ∙ e2), h) in
      let same : (look_up w).0 ≡ r = cc in
      let kept : w1.db ≡ w.db =
        (Preserves-service_get_product_by_sku {P = λ db. db ≡ w.db} env t a.sku).holds w refl in
      subst (λ js. Answers w.db js (a ∷ qs)) all
        (
          enrich-IsAnswer w.db a r (subst (IsRead w.db a) same (service-IsRead a w)),
          subst (λ db. Answers db rest qs) kept (build_items-Answers qs w1 rest es),
        )
