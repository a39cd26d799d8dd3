-- ===== src/Catalog/Repo/Keys.antt =====
-- Products that are told apart: no two rows of the table have one id, and no two rows of one tenant
-- have SKUs that differ in case only.
use agentic_mudahurus.Shared.{
  ◌≡◌, refl, sym, ◌∙◌, ap, Bool, true, false, none, some, List, [], ◌∷◌, if◌then◌else◌, arith, All,
  Apart, Apart-map, find, update_where, update_where-map, Text, text_eq, text_eq_comm, ◌==◌, ◌&&◌,
  ◌||◌, Bool-cases, inl, inr,
}
use agentic_mudahurus.Schema.{Uuid, ProductRow}
use agentic_mudahurus.World.{Env}
use agentic_mudahurus.Catalog.Repo.{is_product, with_columns, has_sku}

module _ (env : Env) where
  abbrev pub clash : ProductRow → ProductRow → Bool
  clash p q =
      p.id == q.id || p.tenant_id == q.tenant_id && text_eq (env.lower p.sku) (env.lower q.sku)

  -- What the look-up of a SKU that finds none says of each row.
  abbrev pub Free : Uuid → Text → ProductRow → Type 0
  Free t sku p = has_sku env t sku p ≡ false

  pub find-none-Free :
      (t : Uuid) (sku : Text) (ps : List ProductRow)
      → find (has_sku env t sku) ps ≡ none
      → All (Free t sku) ps
  find-none-Free t sku [] e = tt
  find-none-Free t sku (p ∷ ps) e = let rest = find-none-Free t sku ps in ground arith

  pub clash-Free :
      (t : Uuid) (sku : Text) (p q : ProductRow)
      → q.tenant_id ≡ t
      → q.sku ≡ sku
      → (p.id == q.id) ≡ false
      → Free t sku p
      → clash p q ≡ false
  clash-Free t sku p q et es ne free = rw (et, es) ground arith

  clash_comm : (p q : ProductRow) → clash p q ≡ clash q p
  clash_comm p q = let skus = text_eq_comm (env.lower p.sku) (env.lower q.sku) in ground arith

  abbrev updated : Uuid → Uuid → ProductRow → ProductRow → ProductRow
  updated t id q p = if is_product t id p then with_columns q p else p

  updated-apart-Free :
      (t id : Uuid) (q x y : ProductRow)
      → Free t q.sku x
      → Free t q.sku y
      → clash x y ≡ false
      → clash (updated t id q x) (updated t id q y) ≡ false
  updated-apart-Free t id q x y fx fy h = elim (Bool-cases (is_product t id x)) [
    | inl hx ↦ elim (Bool-cases (is_product t id y)) [
      | inl hy ↦ absurd (ground arith)
      | inr hy ↦
          rw (hx, hy)
            (clash_comm (with_columns q x) y
              ∙ clash-Free t q.sku y (with_columns q x) ground arith refl ground arith fy)
    ]
    | inr hx ↦ elim (Bool-cases (is_product t id y)) [
      | inl hy ↦
          rw (hx, hy) (clash-Free t q.sku x (with_columns q y) ground arith refl ground arith fx)
      | inr hy ↦ rw (hx, hy) h
    ]
  ]

  -- The rows that an update hits have the new SKU already, but for case.
  abbrev Same : Uuid → Uuid → Text → ProductRow → Type 0
  Same t id sku p = is_product t id p ≡ true → env.lower p.sku ≡ env.lower sku

  updated-lower :
      (t id : Uuid) (q x : ProductRow)
      → Same t id q.sku x
      → env.lower (updated t id q x).sku ≡ env.lower x.sku
  updated-lower t id q x same = elim (Bool-cases (is_product t id x)) [
    | inl hit ↦ rw hit (sym (same hit))
    | inr miss ↦ rw miss refl
  ]

  updated-keys :
      (t id : Uuid) (q x : ProductRow)
      → ((updated t id q x).id ≡ x.id) × ((updated t id q x).tenant_id ≡ x.tenant_id)
  updated-keys t id q x = elim (Bool-cases (is_product t id x)) [
    | inl hit ↦ rw hit (refl, refl)
    | inr miss ↦ rw miss (refl, refl)
  ]

  updated-apart-Same :
      (t id : Uuid) (q x y : ProductRow)
      → Same t id q.sku x
      → Same t id q.sku y
      → clash x y ≡ false
      → clash (updated t id q x) (updated t id q y) ≡ false
  updated-apart-Same t id q x y sx sy h =
      let (ix, tx) = updated-keys t id q x in
      let (iy, ty) = updated-keys t id q y in
      let lx = updated-lower t id q x sx in
      let ly = updated-lower t id q y sy in rw (ix, tx, iy, ty, lx, ly) h

  found-Same-rest :
      (t id : Uuid) (p : ProductRow) (sku : Text) (ps : List ProductRow)
      → is_product t id p ≡ true
      → All (λ q. clash p q ≡ false) ps
      → All (Same t id sku) ps
  found-Same-rest t id p sku [] hit h = tt
  found-Same-rest t id p sku (q ∷ qs) hit (hq, h) =
      (λ hit_q. absurd (ground arith), found-Same-rest t id p sku qs hit h)

  -- With ids apart, an update hits one row at most: the one that the look-up finds.
  pub found-Same :
      (t id : Uuid) (sku : Text) (ps : List ProductRow) (p : ProductRow)
      → Apart clash ps
      → find (is_product t id) ps ≡ some p
      → env.lower p.sku ≡ env.lower sku
      → All (Same t id sku) ps
  found-Same t id sku [] p h e same = tt
  found-Same t id sku (q ∷ qs) p (hq, h) e same = elim (Bool-cases (is_product t id q)) [
    | inl hit ↦
        let is_p : q ≡ p = cc (rw hit at e) in
        (
          λ _. ap (λ (x : ProductRow). env.lower x.sku) is_p ∙ same,
          found-Same-rest t id q sku qs hit hq,
        )
    | inr miss ↦ (λ hit. cc (miss, hit), found-Same t id sku qs p h (rw miss at e) same)
  ]

  pub Apart-update-Free :
      (t id : Uuid) (q : ProductRow) (ps : List ProductRow)
      → find (has_sku env t q.sku) ps ≡ none
      → Apart clash ps
      → Apart clash (update_where (is_product t id) (with_columns q) ps)
  Apart-update-Free t id q ps none_found h =
      rw (update_where-map (is_product t id) (with_columns q) ps) (
        Apart-map clash (Free t q.sku) (updated t id q) (updated-apart-Free t id q) ps
          (find-none-Free t q.sku ps none_found) h)

  pub Apart-update-Same :
      (t id : Uuid) (q p : ProductRow) (ps : List ProductRow)
      → find (is_product t id) ps ≡ some p
      → env.lower p.sku ≡ env.lower q.sku
      → Apart clash ps
      → Apart clash (update_where (is_product t id) (with_columns q) ps)
  Apart-update-Same t id q p ps found same h =
      rw (update_where-map (is_product t id) (with_columns q) ps) (
        Apart-map clash (Same t id q.sku) (updated t id q) (updated-apart-Same t id q) ps
          (found-Same t id q.sku ps p h found same) h)
