-- ===== src/Catalog/Service/UniqueSku.antt =====
-- SKUs of one tenant differ by more than case: the check that the service makes before it writes, which
-- UNIQUE (tenant_id, sku) alone does not give.
use agentic_mudahurus.Shared.{
  ℕ, ◌≡◌, ◌⊎◌, refl, sym, subst, true, false, none, some, List, [], ◌∷◌, if◌then◌else◌, arith, All,
  Apart, Apart-insert, Apart-delete, Apart-map, find, find-All, ltb, any, Text, ◌==◌, Bool-cases,
  inl, inr,
}
use agentic_mudahurus.Schema.{Uuid, ProductRow, Product, Db}
use agentic_mudahurus.World.{Env, World, ok, Action, pure, lift, map_error, emit, ◌>>=◌, ◌>>◌}
use agentic_mudahurus.World.Inversion.{map_error-ok}
use agentic_mudahurus.World.Preserves.{
  Preserves, preserve_rules, Preserves-statement, Preserves-bind, Preserves-emit, Preserves-pure,
  bind_elim, bind_then, statement_leads, inserted_keeps, affected_keeps,
}
use agentic_mudahurus.Catalog.Repo
use agentic_mudahurus.Catalog.Repo.{is_product, has_sku, with_columns, uncategorise, scan_product}
use agentic_mudahurus.Catalog.Repo.Keys.{
  clash, Free, clash-Free, find-none-Free, Apart-update-Free, Apart-update-Same,
}
use agentic_mudahurus.Catalog.Repo.Isolation.{Preserves-get_product}
use agentic_mudahurus.Catalog.Service.Isolation.{Preserves-check_sku}
use agentic_mudahurus.Catalog.Service.{
  map_err, check_sku, to_uuid, validate_product, ProductInput, new_product, changed_product,
  create_product, update_product, delete_product, delete_category,
}

abbrev pub IsAscii : Text → Type 0
IsAscii s = All (λ c. ltb c 128 ≡ true) s

-- Strings of ASCII that strings.EqualFold identifies have one lower-case form in the database.
abbrev pub FoldsAscii : Env → Type 0
FoldsAscii env =
    (s r : Text) → IsAscii s → IsAscii r → env.equal_fold s r ≡ true → env.lower s ≡ env.lower r

module _ (env : Env) (healthy : (k : ℕ) → env.fails k ≡ false) where
  -- Where the check lets a SKU pass, no product of the tenant has it in any case.
  check_sku-free :
      (t : Uuid) (sku : Text) (w : World)
      → (check_sku env t sku w).0 ≡ ok tt
      → find (has_sku env t sku) w.db.products ≡ none
  unfolding check_sku Repo.get_product_by_sku ◌>>=◌
  check_sku-free t sku w h = let up = healthy w.tick in ground arith

  found-product :
      (t id : Uuid) (w : World) (p : Product)
      → (Repo.get_product env t id w).0 ≡ ok p
      → find (is_product t id) w.db.products ≡ some p.row
  unfolding Repo.get_product Repo.scan_product ◌>>=◌
  found-product t id w p h = ground arith

  inserted-clash :
      (t : Uuid) (sku : Text) (q : ProductRow) (ps : List ProductRow)
      → q.tenant_id ≡ t
      → q.sku ≡ sku
      → any (λ x. x.id == q.id) ps ≡ false
      → All (Free env t sku) ps
      → All (λ p. clash env p q ≡ false) ps
  inserted-clash t sku q [] et es fresh free = tt
  inserted-clash t sku q (p ∷ ps) et es fresh (fp, free) = (
    clash-Free env t sku p q et es ground arith fp,
    inserted-clash t sku q ps et es ground arith free,
  )

  abbrev pub ApartIn : Db → Type 0
  ApartIn db = Apart (clash env) db.products

  abbrev FreeIn : Uuid → Text → Db → Type 0
  FreeIn t sku db = ApartIn db × (find (has_sku env t sku) db.products ≡ none)

  insert-Apart :
      (p : ProductRow) (w : World)
      → FreeIn p.tenant_id p.sku w.db
      → ApartIn (Repo.create_product env p w).1.db
  unfolding Repo.create_product
  insert-Apart p w h =
      statement_leads (FreeIn p.tenant_id p.sku) ApartIn env _ (λ db k. k.0)
        (λ n db k. inserted_keeps ApartIn _ _ _ db k.0 λ fits.
          Apart-insert (clash env) db.products _ k.0 (
            inserted-clash p.tenant_id p.sku (record p { id = env.uuid n; created_at = env.now n })
              db.products refl refl (let pass = fits in ground arith)
              (find-none-Free env p.tenant_id p.sku db.products k.1)))
        w h

  update-Apart-Free :
      (p : ProductRow) (w : World)
      → FreeIn p.tenant_id p.sku w.db
      → ApartIn (Repo.update_product env p w).1.db
  unfolding Repo.update_product
  update-Apart-Free p w h =
      statement_leads (FreeIn p.tenant_id p.sku) ApartIn env _ (λ db k. k.0)
        (λ n db k.
          affected_keeps ApartIn _ _ _ _ db k.0
            λ found. Apart-update-Free env p.tenant_id p.id p db.products k.1 k.0)
        w h

  update-Apart-Same :
      (p old : ProductRow) (w : World)
      → find (is_product p.tenant_id p.id) w.db.products ≡ some old
      → env.lower old.sku ≡ env.lower p.sku
      → ApartIn w.db
      → ApartIn (Repo.update_product env p w).1.db
  unfolding Repo.update_product
  update-Apart-Same p old w found same h =
      statement_leads Known ApartIn env _ (λ db k. k.0)
        (λ n db k.
          affected_keeps ApartIn _ _ _ _ db k.0
            λ hit. Apart-update-Same env p.tenant_id p.id p old db.products k.1 same k.0)
        w (h, found)
    where
      Known : Db → Type 0
      Known db = ApartIn db × (find (is_product p.tenant_id p.id) db.products ≡ some old)

  pub create_product-Apart :
      (t : Uuid) (input : ProductInput) (w : World)
      → ApartIn w.db
      → ApartIn (create_product env t input w).1.db
  unfolding create_product lift emit pure
  create_product-Apart t input w h =
      bind_elim (λ s. ApartIn s.1.db) (lift (validate_product input)) _ w
        (λ _ _.
          bind_elim (λ s. ApartIn s.1.db) (check_sku env t input.sku) _ w
            (λ _ passed.
              let free = check_sku-free t input.sku w passed in
              let still : FreeIn t input.sku w1.db =
                subst (FreeIn t input.sku) (sym same) (h, free) in
              bind_elim (λ s. ApartIn s.1.db) (lift (to_uuid env input.category_id)) _ w1
                (λ category _.
                  bind_then ApartIn (Repo.create_product env (new_product env t category input)) _
                    w1 (insert-Apart (new_product env t category input) w1 still)
                    (λ p. Preserves-bind _ _ (Preserves-emit _) (λ _. Preserves-pure _)))
                (λ _ _. still.0))
            (λ _ _. subst ApartIn (sym same) h))
        (λ _ _. h)
    where
      w1 : World
      w1 = (check_sku env t input.sku w).1

      same : w1.db ≡ w.db
      same = (Preserves-check_sku {P = λ db. db ≡ w.db} env t input.sku).holds w refl

  -- What the update relies on: the product there was, and a SKU that is its own or free.
  record Ready (p old : ProductRow) (db : Db) : Type 0 where
    apart : ApartIn db
    found : find (is_product p.tenant_id p.id) db.products ≡ some old
    may :
        (env.lower old.sku ≡ env.lower p.sku)
        ⊎ (find (has_sku env p.tenant_id p.sku) db.products ≡ none)

  update-Apart :
      (p old : ProductRow) (w : World)
      → Ready p old w.db
      → ApartIn (Repo.update_product env p w).1.db
  update-Apart p old w r = elim r.may [
    | inl same ↦ update-Apart-Same p old w r.found same r.apart
    | inr free ↦ update-Apart-Free p w (r.apart, free)
  ]

  abbrev recheck : Uuid → Text → Text → Action (Unit {0})
  recheck t old new = if env.equal_fold old new then pure tt else check_sku env t new

  Preserves-recheck :
      {P : Db → Type 0} (t : Uuid) (old new : Text) → Preserves P (recheck t old new)
  Preserves-recheck t old new = search (preserve_rules, Preserves-check_sku)

  recheck-may :
      (folds : FoldsAscii env) (t : Uuid) (old new : Text) (w : World)
      → IsAscii old
      → IsAscii new
      → (recheck t old new w).0 ≡ ok tt
      → (env.lower old ≡ env.lower new) ⊎ (find (has_sku env t new) w.db.products ≡ none)
  recheck-may folds t old new w plain plain_new h = elim (Bool-cases (env.equal_fold old new)) [
    | inl e ↦ inl (folds old new plain plain_new e)
    | inr e ↦ inr (check_sku-free t new w (rw e at h))
  ]

  abbrev write_product : Uuid → Uuid → ProductInput → Product → Action Product
  write_product t id input old = do
    category ← lift (to_uuid env input.category_id)
    map_error map_err (Repo.update_product env (changed_product t id old category input))
    Repo.get_product env t id

  write_product-Apart :
      (t id : Uuid) (input : ProductInput) (old : Product) (w : World)
      → Ready (changed_product t id old none input) old.row w.db
      → ApartIn (write_product t id input old w).1.db
  unfolding lift map_error
  write_product-Apart t id input old w r =
      bind_elim (λ s. ApartIn s.1.db) (lift (to_uuid env input.category_id)) _ w
        (λ category _.
          bind_then ApartIn
            (map_error map_err (Repo.update_product env (changed_product t id old category input)))
            _ w
            (update-Apart (changed_product t id old category input) old.row w
              (record { apart = r.apart; found = r.found; may = r.may }))
            (λ _. Preserves-get_product env t id))
        (λ _ _. r.apart)

  pub update_product-Apart :
      (folds : FoldsAscii env) (t id : Uuid) (input : ProductInput) (w : World)
      → All (λ p. IsAscii p.sku) w.db.products
      → IsAscii input.sku
      → ApartIn w.db
      → ApartIn (update_product env t id input w).1.db
  unfolding update_product lift map_error
  update_product-Apart folds t id input w plain plain_new h =
      bind_elim (λ s. ApartIn s.1.db) (lift (validate_product input)) _ w
        (λ _ _.
          bind_elim (λ s. ApartIn s.1.db) (map_error map_err (Repo.get_product env t id)) _ w
            (λ old read.
              let found =
                found-product t id w old
                  (map_error-ok map_err (Repo.get_product env t id) w old read) in
              let plain_old =
                find-All (λ p. IsAscii p.sku) (is_product t id) w.db.products old.row plain found in
              bind_elim (λ s. ApartIn s.1.db) (recheck t old.sku input.sku) _ w1
                (λ _ passed. write_product-Apart t id input old (recheck t old.sku input.sku w1).1 (
                  subst (Ready (changed_product t id old none input) old.row) (sym (same2 old))
                    (record {
                      apart = h;
                      found = found;
                      may =
                          subst
                            (λ (db : Db).
                              (env.lower old.sku ≡ env.lower input.sku)
                              ⊎ (find (has_sku env t input.sku) db.products ≡ none))
                            same
                            (recheck-may folds t old.sku input.sku w1 plain_old plain_new passed);
                    })))
                (λ _ _. subst ApartIn (sym (same2 old)) h))
            (λ _ _. subst ApartIn (sym same) h))
        (λ _ _. h)
    where
      w1 : World
      w1 = (Repo.get_product env t id w).1

      same : w1.db ≡ w.db
      same = (Preserves-get_product {P = λ db. db ≡ w.db} env t id).holds w refl

      same2 : (old : Product) → (recheck t old.sku input.sku w1).1.db ≡ w.db
      same2 old = (Preserves-recheck {P = λ db. db ≡ w.db} t old.sku input.sku).holds w1 same

  deleted-Apart : (t id : Uuid) → Preserves ApartIn (Repo.delete_product env t id)
  unfolding Repo.delete_product
  deleted-Apart t id = Preserves-statement env _ λ k db h.
      affected_keeps ApartIn _ _ _ _ db h
        λ found. Apart-delete (clash env) (is_product t id) db.products h

  uncategorised-Apart : (t id : Uuid) → Preserves ApartIn (Repo.delete_category env t id)
  unfolding Repo.delete_category
  uncategorised-Apart t id = Preserves-statement env _ λ k db h.
      affected_keeps ApartIn _ _ _ _ db h λ found.
        Apart-map (clash env) (λ _. Unit {0}) (uncategorise id) (λ p q _ _ e. e) db.products
          (all_unit db.products) h
    where
      all_unit : (ps : List ProductRow) → All (λ _. Unit {0}) ps
      all_unit [] = tt
      all_unit (p ∷ ps) = (tt, all_unit ps)

-- SKUs in ASCII stay unique in any case. If no statement fails, all SKUs of the table and the one asked for
-- are in ASCII, and the database lowers the letters of ASCII as EqualFold folds them, then each
-- operation that writes products, whatever else it is asked and whether it succeeds or not, keeps this
-- of the table: no two products have one id, and no two products of one tenant have SKUs with one
-- lower-case form.
pub sku_uniqueness :
    (env : Env) (healthy : (k : ℕ) → env.fails k ≡ false) (folds : FoldsAscii env) (t id : Uuid)
    (input : ProductInput) (w : World)
    → All (λ p. IsAscii p.sku) w.db.products
    → IsAscii input.sku
    → Apart (clash env) w.db.products
    → Apart (clash env) (create_product env t input w).1.db.products
      × Apart (clash env) (update_product env t id input w).1.db.products
      × Apart (clash env) (delete_product env t id w).1.db.products
      × Apart (clash env) (delete_category env t id w).1.db.products
unfolding delete_product delete_category map_error
sku_uniqueness env healthy folds t id input w plain plain_new h = (
  create_product-Apart env healthy t input w h,
  update_product-Apart env healthy folds t id input w plain plain_new h,
  (deleted-Apart env healthy t id).holds w h,
  (uncategorised-Apart env healthy t id).holds w h,
)
