-- ===== src/Catalog/Handler/Uploads.antt =====
-- The upload of an image, on each of its branches.
use agentic_mudahurus.Shared.{
  arith, ◌≡◌, refl, true, sym, subst, ◌∙◌, ap, Option, none, some, Text, codes,
}
use agentic_mudahurus.Schema.{Uuid, ProductRow, Product}
use agentic_mudahurus.World.{
  Env, World, Error, Result, ok, err, pure, raise, lift, try, map_error, statement, affected, ◌>>=◌,
}
use agentic_mudahurus.World.Inversion.{bind-returned, chain-ok}
use agentic_mudahurus.Tenancy.Identity.{Context, tid}
use agentic_mudahurus.Storage.{Disk, Upload, check_upload, allowed_image_mime, read, delete_object}
use agentic_mudahurus.Storage.Uploads.{
  IsAccepted, check_upload-IsAccepted, Preserves-put_object, read-delete,
}
use agentic_mudahurus.Catalog.Repo
use agentic_mudahurus.Catalog.Service.{map_err}
use agentic_mudahurus.Catalog.Handler.{
  parse_id, image_refusals, clean_up, settle_image, store_image, replace_image, upload_image,
}
use agentic_mudahurus.Catalog.Handler.Images.{
  IsIllustrated, parse_id-ok, replace_image-IsIllustrated,
}

abbrev checked : Option Upload → Result Upload
checked image = check_upload image_refusals allowed_image_mime image

upload_image-step :
    (env : Env) (disk : Disk) (reason : Text) (ctx : Context) (param : Text) (image : Option Upload)
    (w : World) (id : Uuid) (u : Upload)
    → env.parse_uuid param ≡ some id
    → checked image ≡ ok u
    → upload_image env disk reason ctx param image w
      ≡ replace_image env disk reason (tid ctx) id u w
unfolding upload_image parse_id lift ◌>>=◌
upload_image-step env disk reason ctx param image w id u parsed passed = rw (parsed, passed) refl

upload_image-refused :
    (env : Env) (disk : Disk) (reason : Text) (ctx : Context) (param : Text) (image : Option Upload)
    (w : World) (id : Uuid) (e : Error)
    → env.parse_uuid param ≡ some id
    → checked image ≡ err e
    → upload_image env disk reason ctx param image w ≡ (err e, w)
unfolding upload_image parse_id lift ◌>>=◌
upload_image-refused env disk reason ctx param image w id e parsed refused =
    rw (parsed, refused) refl

set_product_image-err :
    (env : Env) (t id : Uuid) (key : Text) (e : Error) (w : World)
    → (Repo.set_product_image env t id key w).0 ≡ err e
    → (Repo.set_product_image env t id key w).1.db ≡ w.db
unfolding Repo.set_product_image affected statement
set_product_image-err env t id key e w h = ground arith

settle_image-failed :
    (env : Env) (disk : Disk) (t id : Uuid) (key : Text) (e : Error) (w : World)
    → settle_image env disk t id key (err e) w ≡ (err (map_err e), (delete_object disk key w).1)
unfolding settle_image clean_up delete_object raise pure try ◌>>=◌
settle_image-failed env disk t id key e w = refl

replace_image-failed :
    (env : Env) (disk : Disk) (reason : Text) (t id : Uuid) (u : Upload) (w : World) (key : Text)
    (e : Error)
    → (store_image env disk reason t u w).0 ≡ ok key
    → (Repo.set_product_image env t id key (store_image env disk reason t u w).1).0 ≡ err e
    → ((replace_image env disk reason t id u w).0 ≡ err (map_err e))
      × (disk.removes key ≡ true → read key (replace_image env disk reason t id u w).1.files ≡ none)
      × ((replace_image env disk reason t id u w).1.db ≡ w.db)
unfolding replace_image try store_image map_error delete_object
replace_image-failed env disk reason t id u w key e stored failed =
    let w1 = (store_image env disk reason t u w).1 in
    let set = Repo.set_product_image env t id key in
    let e1 =
      bind-returned (store_image env disk reason t u)
        (λ k. try (Repo.set_product_image env t id k) >>= settle_image env disk t id k) w key
        stored in
    let e2 =
      bind-returned (try set) (settle_image env disk t id key) w1 (err e) (ap (λ r. ok r) failed) in
    let out = e1 ∙ e2 ∙ settle_image-failed env disk t id key e (set w1).1 in
    let same : w1.db ≡ w.db =
      (Preserves-put_object env disk t (codes "products") u.filename u.content_type u.bytes
          {P = λ db. db ≡ w.db}).holds
        w refl in
    (
      ap (λ s. s.0) out,
      λ lets. ap (λ s. read key s.1.files) out ∙ read-delete disk key (set w1).1.files lets,
      ap (λ s. s.1.db) out ∙ set_product_image-err env t id key e w1 failed ∙ same,
    )

-- The upload of a product's image. If it is answered, the file was of an allowed type and of at most 8 MiB;
-- the row of the product has the key of the stored file and is otherwise what it was, as are all other
-- rows; the key leads to the bytes of the file, unless it is that of the type beside the old image;
-- and the old image, if it has another key, is gone if the file system lets it be removed. A file that
-- the checks refuse changes nothing at all. And where the file is stored but the product cannot be
-- updated, the tables are what they were, and the stored file is gone again if the file system lets
-- it be removed.
pub upload_image_outcome :
    (env : Env) (disk : Disk) (reason : Text) (ctx : Context) (param : Text) (image : Option Upload)
    (w : World)
    → ((p : Product)
        → (upload_image env disk reason ctx param image w).0 ≡ ok p
        → (id : Uuid) × (u : Upload) × (key : Text) × (old : ProductRow) × IsAccepted
            allowed_image_mime image u
          × IsIllustrated env disk
              (tid ctx)
              id
              u
              w
              (upload_image env disk reason ctx param image w).1
              p
              key
              old)
      × ((id : Uuid) (e : Error)
          → env.parse_uuid param ≡ some id
          → checked image ≡ err e
          → upload_image env disk reason ctx param image w ≡ (err e, w))
      × ((id : Uuid) (u : Upload) (key : Text) (e : Error)
          → env.parse_uuid param ≡ some id
          → checked image ≡ ok u
          → (store_image env disk reason (tid ctx) u w).0 ≡ ok key
          → (Repo.set_product_image env
              (tid ctx)
              id
              key
              (store_image env disk reason (tid ctx) u w).1).0
            ≡ err e
          → ((upload_image env disk reason ctx param image w).0 ≡ err (map_err e))
            × (disk.removes key ≡ true
                → read key (upload_image env disk reason ctx param image w).1.files ≡ none)
            × ((upload_image env disk reason ctx param image w).1.db ≡ w.db))
unfolding upload_image lift
upload_image_outcome env disk reason ctx param image w = (
  λ p h.
      let (id, parsed, e1) = chain-ok (parse_id env param) _ w p refl h in
      let (asked, same) = parse_id-ok env param w id parsed in
      let (u, passed, _) = chain-ok (lift (checked image)) _ _ p e1 h in
      let out = upload_image-step env disk reason ctx param image w id u asked passed in
      let (key, old, done) =
        replace_image-IsIllustrated env disk reason (tid ctx) id u w p
          (ap (λ s. s.0) (sym out) ∙ h) in
      (
        id,
        u,
        key,
        old,
        check_upload-IsAccepted image_refusals allowed_image_mime image u passed,
        subst (λ s. IsIllustrated env disk (tid ctx) id u w s.1 p key old) (sym out) done,
      ),
  upload_image-refused env disk reason ctx param image w,
  λ id u key e asked passed stored failed.
      let out = upload_image-step env disk reason ctx param image w id u asked passed in
      let (refused, gone, tables) =
        replace_image-failed env disk reason (tid ctx) id u w key e stored failed in
      (
        ap (λ s. s.0) out ∙ refused,
        λ lets. ap (λ s. read key s.1.files) out ∙ gone lets,
        ap (λ s. s.1.db) out ∙ tables,
      ),
)
