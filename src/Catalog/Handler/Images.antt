-- ===== src/Catalog/Handler/Images.antt =====
-- The image of a product: what is stored, what is shown, and which files go.
use agentic_mudahurus.Shared.{
  ◌≡◌, refl, true, sym, subst, ◌∙◌, ap, false, none, some, List, ◌++◌, find, find-holds,
  find-none-any, find-update_where, update_where, Text, codes, text_eq, is_empty, arith,
  none_or_some, inl, inr,
}
use agentic_mudahurus.Schema.{Uuid, ProductRow, Product, Db}
use agentic_mudahurus.World.{
  Env, World, Action, Result, ok, pure, raise, require, try, map_error, statement, affected,
}
use agentic_mudahurus.World.Inversion.{chain-ok, map_error-ok}
use agentic_mudahurus.Httpx.Errors.{bad_request}
use agentic_mudahurus.Storage.{Disk, Upload, read, key_for, put_object}
use agentic_mudahurus.Storage.Uploads.{put_object-stored, Preserves-put_object}
use agentic_mudahurus.Catalog.Repo
use agentic_mudahurus.Catalog.Repo.{is_product}
use agentic_mudahurus.Catalog.Handler.{parse_id, settle_image, store_image, replace_image}
use agentic_mudahurus.Catalog.Handler.CleanUp.{IsCleaned, settle_image-IsSettled}

pub parse_id-ok :
    (env : Env) (param : Text) (w : World) (id : Uuid)
    → (parse_id env param w).0 ≡ ok id
    → (env.parse_uuid param ≡ some id) × ((parse_id env param w).1 ≡ w)
unfolding parse_id require pure raise
parse_id-ok env param w id h = ground arith

pub set_product_image-ok :
    (env : Env) (t id : Uuid) (key old : Text) (w : World)
    → (Repo.set_product_image env t id key w).0 ≡ ok old
    → (p : ProductRow) × (find (is_product t id) w.db.products ≡ some p)
      × (old ≡ p.image_key)
      × ((Repo.set_product_image env t id key w).1.db ≡ record w.db {
        products = update_where (is_product t id) (λ p. record p { image_key = key }) w.db.products;
      })
      × ((Repo.set_product_image env t id key w).1.files ≡ w.files)
unfolding Repo.set_product_image affected statement
set_product_image-ok env t id key old w h =
    elim (none_or_some (find (is_product t id) w.db.products)) [
      | inl e ↦
          let missing = find-none-any (is_product t id) w.db.products e in absurd (ground arith)
      | inr (p, e) ↦ (p, e, ground arith, ground arith, ground arith)
    ]

-- What an upload of an image that was answered left behind.
pub record IsIllustrated (env : Env) (disk : Disk) (t id : Uuid) (u : Upload) (before after : World)
    (p : Product) (key : Text) (old : ProductRow) : Type 0 where
  pub name : key ≡ key_for env t (codes "products") (env.uuid before.tick) u.filename
  pub was : find (is_product t id) before.db.products ≡ some old
  pub row : p.row ≡ record old { image_key = key }
  pub tables : after.db ≡ record before.db {
    products =
        update_where (is_product t id) (λ p. record p { image_key = key }) before.db.products;
  }
  pub file :
      text_eq (old.image_key ++ codes ".ct") key ≡ false → read key after.files ≡ some u.bytes
  pub gone :
      is_empty old.image_key ≡ false
      → text_eq old.image_key key ≡ false
      → disk.removes old.image_key ≡ true
      → read old.image_key after.files ≡ none

pub try-ok :
    {A : Type 0} (m : Action A) (w : World) (r : Result A) → (try m w).0 ≡ ok r → (m w).0 ≡ r
unfolding try
try-ok m w r h = ground arith

updated-row :
    (t id : Uuid) (key : Text) (old new : ProductRow) (ps : List ProductRow)
    → find (is_product t id) ps ≡ some old
    → find (is_product t id) (update_where (is_product t id) (λ p. record p { image_key = key }) ps)
      ≡ some new
    → new ≡ record old { image_key = key }
updated-row t id key old new ps was now =
    let seen =
      find-update_where (is_product t id) (is_product t id) (λ p. record p { image_key = key }) ps
        (λ x. refl) in
    let hit = find-holds (is_product t id) ps old was in cc (rw (was, hit) at seen, now)

-- The two steps behind the storage, in the world `w` that it left.
record IsReplaced (disk : Disk) (t id : Uuid) (key : Text) (w after : World) (p : Product)
    : Type 0 where
  was : ProductRow
  found : find (is_product t id) w.db.products ≡ some was
  row : p.row ≡ record was { image_key = key }
  tables : after.db ≡ record w.db {
    products = update_where (is_product t id) (λ p. record p { image_key = key }) w.db.products;
  }
  kept :
      text_eq (was.image_key ++ codes ".ct") key ≡ false → read key after.files ≡ read key w.files
  gone :
      is_empty was.image_key ≡ false
      → text_eq was.image_key key ≡ false
      → disk.removes was.image_key ≡ true
      → read was.image_key after.files ≡ none

set_and_settled :
    (env : Env) (disk : Disk) (t id : Uuid) (key old : Text) (w after : World) (p : Product)
    → (Repo.set_product_image env t id key w).0 ≡ ok old
    → find (is_product t id) (Repo.set_product_image env t id key w).1.db.products ≡ some p.row
    → IsCleaned disk key old (Repo.set_product_image env t id key w).1 after
    → IsReplaced disk t id key w after p
set_and_settled env disk t id key old w after p set now clean =
    let (was, found, e_old, tables, files) = set_product_image-ok env t id key old w set in
    let seen = ap (λ (db : Db). find (is_product t id) db.products) (sym tables) ∙ now in
    let path = λ (s : Text). text_eq (s ++ codes ".ct") key ≡ false in
    record {
      was = was;
      found = found;
      row = updated-row t id key was p.row w.db.products found seen;
      tables = clean.tables ∙ tables;
      kept = λ typed. clean.kept (subst path (sym e_old) typed) ∙ ap (read key) files;
      gone = λ full other lets.
          ap (λ s. read s after.files) (sym e_old)
          ∙ clean.gone (ap is_empty e_old ∙ full) (ap (λ s. text_eq s key) e_old ∙ other)
              (ap (λ s. disk.removes s) e_old ∙ lets);
    }

pub replace_image-IsIllustrated :
    (env : Env) (disk : Disk) (reason : Text) (t id : Uuid) (u : Upload) (w : World) (p : Product)
    → (replace_image env disk reason t id u w).0 ≡ ok p
    → (key : Text) × (old : ProductRow) × IsIllustrated env disk t id u w
        (replace_image env disk reason t id u w).1
        p
        key
        old
unfolding replace_image store_image try map_error
replace_image-IsIllustrated env disk reason t id u w p h =
    let (key, stored, e1) = chain-ok (store_image env disk reason t u) _ w p refl h in
    let put = put_object env disk t (codes "products") u.filename u.content_type u.bytes in
    let w1 = (store_image env disk reason t u w).1 in
    let same : w1.db ≡ w.db =
      (Preserves-put_object env disk t (codes "products") u.filename u.content_type u.bytes
          {P = λ db. db ≡ w.db}).holds
        w refl in
    let set = Repo.set_product_image env t id key in
    let (r, set_ok, e2) = chain-ok (try set) _ w1 p e1 h in
    let w2 = (set w1).1 in
    let settled = settle_image-IsSettled env disk t id key r w2 p (ap (λ s. s.0) (sym e2) ∙ h) in
    let done =
      set_and_settled env disk t id key settled.old w1 (settle_image env disk t id key r w2).1 p
        (try-ok set w1 r set_ok ∙ settled.set) settled.row settled.clean in
    let (name, file) =
      put_object-stored env disk t (codes "products") u.filename u.content_type u.bytes w key
        (map_error-ok (λ e. bad_request reason) put w key stored) in
    let final = sym (ap (λ s. s.1) e2) in
    (
      key,
      done.was,
      subst (λ after. IsIllustrated env disk t id u w after p key done.was) final
          (record {
            name = name;
            was = ap (λ (db : Db). find (is_product t id) db.products) (sym same) ∙ done.found;
            row = done.row;
            tables =
                done.tables
                ∙ ap
                    (λ (db : Db). record db {
                      products =
                          update_where (is_product t id) (λ p. record p { image_key = key })
                            db.products;
                    })
                    same;
            file = λ typed. done.kept typed ∙ file;
            gone = done.gone;
          }),
    )
