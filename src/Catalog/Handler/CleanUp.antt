-- ===== src/Catalog/Handler/CleanUp.antt =====
-- The files that an upload of an image leaves, once the product is updated.
use agentic_mudahurus.Shared.{
  ◌≡◌, refl, true, sym, subst, ◌∙◌, ap, false, none, some, ◌++◌, ◌&&◌, not, find, Text, codes,
  text_eq, is_empty, arith, Bool-cases, inl, inr,
}
use agentic_mudahurus.Schema.{Uuid, Product, Db}
use agentic_mudahurus.World.{
  Env, World, Files, Result, ok, err, pure, raise, try, map_error, sign_url, ◌>>=◌,
}
use agentic_mudahurus.World.Inversion.{chain-ok, map_error-ok}
use agentic_mudahurus.World.Quiet.{LeavesFiles, quiet_rules}
use agentic_mudahurus.Catalog.Service.Isolation.{Preserves-service_get_product}
use agentic_mudahurus.Storage.{Disk, read, delete, remove_file, delete_object}
use agentic_mudahurus.Storage.Served.{read-remove}
use agentic_mudahurus.Storage.Uploads.{read-delete}
use agentic_mudahurus.Catalog.Repo
use agentic_mudahurus.Catalog.Repo.{is_product}
use agentic_mudahurus.Catalog.Service as Catalog
use agentic_mudahurus.Catalog.Service.{map_err}
use agentic_mudahurus.Catalog.Handler.{clean_up, settle_image}

read-remove_file :
    (disk : Disk) (path other : Text) (fs : Files)
    → text_eq other path ≡ false
    → read path (remove_file disk other fs) ≡ read path fs
read-remove_file disk path other fs away = elim (Bool-cases (disk.removes other)) [
  | inl e ↦ rw e (read-remove path other fs away)
  | inr e ↦ rw e refl
]

read-delete-other :
    (disk : Disk) (path other : Text) (w : World)
    → text_eq other path ≡ false
    → text_eq (other ++ codes ".ct") path ≡ false
    → read path (delete disk other w.files).1 ≡ read path w.files
unfolding delete
read-delete-other disk path other w away typed =
    read-remove_file disk path other (remove_file disk (other ++ codes ".ct") w.files) away
    ∙ read-remove_file disk path (other ++ codes ".ct") w.files typed

-- After the clean-up the new file is there, and the old one is gone if the file system lets it go.
pub record IsCleaned (disk : Disk) (key old : Text) (before after : World) : Type 0 where
  pub tables : after.db ≡ before.db
  pub kept : text_eq (old ++ codes ".ct") key ≡ false → read key after.files ≡ read key before.files
  pub gone :
      is_empty old ≡ false
      → text_eq old key ≡ false
      → disk.removes old ≡ true
      → read old after.files ≡ none

clean_up-ok :
    (env : Env) (disk : Disk) (key : Text) (r : Result Text) (w : World)
    → (clean_up env disk key r w).0 ≡ ok tt
    → (old : Text) × (r ≡ ok old) × IsCleaned disk key old w (clean_up env disk key r w).1
unfolding clean_up delete_object raise pure try ◌>>=◌
clean_up-ok env disk key (err e) w h = absurd (cc h)
clean_up-ok env disk key (ok old) w h =
    elim (Bool-cases (not (is_empty old) && not (text_eq old key))) [
      | inl e ↦ (
        old,
        refl,
        rw e (record {
          tables = refl;
          kept = λ typed. read-delete-other disk key old w ground arith typed;
          gone = λ _ _ lets. read-delete disk old w.files lets;
        }),
      )
      | inr e ↦ (
        old,
        refl,
        rw e (record {
          tables = refl;
          kept = λ typed. refl;
          gone = λ full other lets. absurd (ground arith);
        }),
      )
    ]

attach_image_url-row :
    (env : Env) (p q : Product) (w : World)
    → (Catalog.attach_image_url env p w).0 ≡ ok q
    → p.row ≡ q.row
unfolding Catalog.attach_image_url pure sign_url ◌>>=◌
attach_image_url-row env p q w h = ground arith

read-row :
    (env : Env) (t id : Uuid) (w : World) (p : Product)
    → (Repo.get_product env t id w).0 ≡ ok p
    → find (is_product t id) w.db.products ≡ some p.row
unfolding Repo.get_product Repo.scan_product ◌>>=◌
read-row env t id w p h = ground arith

shown-row :
    (env : Env) (t id : Uuid) (w : World) (p : Product)
    → (Catalog.get_product env t id w).0 ≡ ok p
    → find (is_product t id) w.db.products ≡ some p.row
unfolding Catalog.get_product
shown-row env t id w p h =
    let (q, got, e) = chain-ok (map_error map_err (Repo.get_product env t id)) _ w p refl h in
    let w1 = (map_error map_err (Repo.get_product env t id) w).1 in
    read-row env t id w q (map_error-ok map_err (Repo.get_product env t id) w q got)
    ∙ ap (λ r. some r) (attach_image_url-row env q p w1 (ap (λ s. s.0) (sym e) ∙ h))

get_product-quiet : (env : Env) (t id : Uuid) → LeavesFiles (Catalog.get_product env t id)
unfolding Catalog.get_product Catalog.attach_image_url Repo.get_product
get_product-quiet env t id = search quiet_rules depth 9

pub record IsSettled (disk : Disk) (t id : Uuid) (key : Text) (r : Result Text)
    (before after : World) (p : Product) : Type 0 where
  pub old : Text
  pub set : r ≡ ok old
  pub row : find (is_product t id) before.db.products ≡ some p.row
  pub clean : IsCleaned disk key old before after

pub settle_image-IsSettled :
    (env : Env) (disk : Disk) (t id : Uuid) (key : Text) (r : Result Text) (w : World) (p : Product)
    → (settle_image env disk t id key r w).0 ≡ ok p
    → IsSettled disk t id key r w (settle_image env disk t id key r w).1 p
unfolding settle_image
settle_image-IsSettled env disk t id key r w p h =
    let (_, cleaned, e) = chain-ok (clean_up env disk key r) _ w p refl h in
    let (old, set, clean) = clean_up-ok env disk key r w cleaned in
    let w1 = (clean_up env disk key r w).1 in
    let shown : (Catalog.get_product env t id w1).0 ≡ ok p = ap (λ s. s.0) (sym e) ∙ h in
    let files = (get_product-quiet env t id).holds w1 in
    let tables : (Catalog.get_product env t id w1).1.db ≡ w1.db =
      (Preserves-service_get_product {P = λ db. db ≡ w1.db} env t id).holds w1 refl in
    let files1 : (settle_image env disk t id key r w).1.files ≡ w1.files =
      ap (λ s. s.1.files) e ∙ files in
    record {
      old = old;
      set = set;
      row =
          subst (λ (db : Db). find (is_product t id) db.products ≡ some p.row) clean.tables
            (shown-row env t id w1 p shown);
      clean = record {
        tables = ap (λ s. s.1.db) e ∙ tables ∙ clean.tables;
        kept = λ typed. ap (read key) files1 ∙ clean.kept typed;
        gone = λ full other lets. ap (read old) files1 ∙ clean.gone full other lets;
      };
    }
