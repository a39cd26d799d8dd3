-- ===== src/Orders/Handler/Uploads.antt =====
-- The public upload of a payment proof, from the request to the tables and the files.
use agentic_mudahurus.Shared.{
  ◌≡◌, refl, sym, subst, ◌∙◌, ap, Option, some, find, Text, codes, arith, ◌==◌,
}
use agentic_mudahurus.Schema.{Uuid, OrderRow, Payment, Db}
use agentic_mudahurus.World.{
  Env, World, Action, Error, ok, err, pure, raise, lift, require, map_error,
}
use agentic_mudahurus.World.Inversion.{chain-ok, map_error-ok, Atomic, Atomic-read}
use agentic_mudahurus.World.Preserves.{Preserves, preserve_rules}
use agentic_mudahurus.Httpx.Errors.{bad_request}
use agentic_mudahurus.Storage.{
  Disk, Upload, check_upload, key_for, allowed_proof_mime, put_object, read,
}
use agentic_mudahurus.Storage.Uploads.{
  IsAccepted, check_upload-IsAccepted, put_object-stored, Preserves-put_object,
}
use agentic_mudahurus.Orders.Repo
use agentic_mudahurus.Orders.Repo.{is_order, with_status}
use agentic_mudahurus.Orders.Repo.Isolation.{Preserves-get_by_id}
use agentic_mudahurus.Orders.Service.{map_err, add_payment_proof}
use agentic_mudahurus.Orders.Handler.Proofs.{
  IsProof, read_order-same, read_order-found, add_payment_proof-ok, add_payment_proof-quiet,
  add_payment_proof-Atomic,
}
use agentic_mudahurus.Orders.Handler.{parse_uuid, proof_refusals, public_upload_payment}

abbrev store_proof : Env → Disk → Text → Uuid → Upload → Action Text
store_proof env disk reason t file =
    map_error (λ e. bad_request reason)
      (put_object env disk t (codes "payments") file.filename file.content_type file.bytes)

store_proof-same :
    (env : Env) (disk : Disk) (reason : Text) (t : Uuid) (u : Upload) {P : Db → Type 0}
    → Preserves P (store_proof env disk reason t u)
store_proof-same env disk reason t u = search (preserve_rules, Preserves-put_object)

store_proof-stored :
    (env : Env) (disk : Disk) (reason : Text) (t : Uuid) (u : Upload) (w : World) (key : Text)
    → (store_proof env disk reason t u w).0 ≡ ok key
    → (key ≡ key_for env t (codes "payments") (env.uuid w.tick) u.filename)
      × (read key (store_proof env disk reason t u w).1.files ≡ some u.bytes)
unfolding map_error
store_proof-stored env disk reason t u w key h =
    let put = put_object env disk t (codes "payments") u.filename u.content_type u.bytes in
    put_object-stored env disk t (codes "payments") u.filename u.content_type u.bytes w key
      (map_error-ok (λ e. bad_request reason) put w key h)

parse_uuid-ok :
    (env : Env) (name param : Text) (w : World) (id : Uuid)
    → (parse_uuid env name param w).0 ≡ ok id
    → (env.parse_uuid param ≡ some id) × ((parse_uuid env name param w).1 ≡ w)
unfolding parse_uuid require pure raise
parse_uuid-ok env name param w id h = ground arith

public_upload_payment-ok :
    (env : Env) (disk : Disk) (reason param : Text) (proof : Option Upload) (w : World)
    (p : Payment)
    → (public_upload_payment env disk reason param proof w).0 ≡ ok p
    → (id : Uuid) × (o : OrderRow) × (u : Upload) × (drawn : Uuid) × (key : Text) × (env.parse_uuid
          param
        ≡ some id)
      × (find (λ x. x.id == id) w.db.orders ≡ some o)
      × IsAccepted allowed_proof_mime proof u
      × (key ≡ key_for env o.tenant_id (codes "payments") drawn u.filename)
      × (read key (public_upload_payment env disk reason param proof w).1.files ≡ some u.bytes)
      × IsProof o id key w.db (public_upload_payment env disk reason param proof w).1.db p
unfolding public_upload_payment lift
public_upload_payment-ok env disk reason param proof w p h =
    let (id, parsed, e1) = chain-ok (parse_uuid env (codes "id") param) _ w p refl h in
    let w1 = (parse_uuid env (codes "id") param w).1 in
    let (asked, same1) = parse_uuid-ok env (codes "id") param w id parsed in
    let (o, found, e2) = chain-ok (map_error map_err (Repo.get_by_id env id)) _ w1 p e1 h in
    let w2 = (map_error map_err (Repo.get_by_id env id) w1).1 in
    let (u, passed, e3) =
      chain-ok (lift (check_upload proof_refusals allowed_proof_mime proof)) _ w2 p e2 h in
    let (key, stored, e4) = chain-ok (store_proof env disk reason o.row.tenant_id u) _ w2 p e3 h in
    let w3 = (store_proof env disk reason o.row.tenant_id u w2).1 in
    let same2 : w2.db ≡ w.db = read_order-same env id w1 ∙ ap (λ (v : World). v.db) same1 in
    let same3 : w3.db ≡ w.db =
      (store_proof-same env disk reason o.row.tenant_id u {P = λ db. db ≡ w.db}).holds w2 same2 in
    let row : find (λ x. x.id == id) w.db.orders ≡ some o.row =
      ap (λ (v : World). find (λ x. x.id == id) v.db.orders) (sym same1)
      ∙ read_order-found env id w1 o found in
    let row3 : find (λ x. x.id == id) w3.db.orders ≡ some o.row =
      ap (λ (db : Db). find (λ x. x.id == id) db.orders) same3 ∙ row in
    let added : (add_payment_proof env id key o.row.total_price w3).0 ≡ ok p =
      ap (λ s. s.0) (sym e4) ∙ h in
    let done = add_payment_proof-ok env o.row id key w3 p row3 added in
    let (name, file) = store_proof-stored env disk reason o.row.tenant_id u w2 key stored in
    let quiet = (add_payment_proof-quiet env id key o.row.total_price).holds w3 in
    (
      id,
      o.row,
      u,
      env.uuid w2.tick,
      key,
      asked,
      row,
      check_upload-IsAccepted proof_refusals allowed_proof_mime proof u passed,
      name,
      ap (λ s. read key s.1.files) e4 ∙ ap (read key) quiet ∙ file,
      subst (λ s. IsProof o.row id key w.db s.1.db p) (sym e4)
          (subst
            (λ db.
              IsProof o.row id key db (add_payment_proof env id key o.row.total_price w3).1.db p)
            same3 done),
    )

public_upload_payment-Atomic :
    (env : Env) (disk : Disk) (reason param : Text) (proof : Option Upload)
    → Atomic (public_upload_payment env disk reason param proof)
unfolding public_upload_payment parse_uuid
public_upload_payment-Atomic env disk reason param proof =
    Atomic-read _ _ (λ before. search preserve_rules)
      λ id.
        Atomic-read _ _ (λ before. search (preserve_rules, Preserves-get_by_id))
          λ o.
            Atomic-read _ _ (λ before. search preserve_rules)
              λ u.
                Atomic-read _ _ (λ before. store_proof-same env disk reason o.row.tenant_id u)
                  λ key. add_payment_proof-Atomic env id key o.row.total_price

-- A guest's payment proof. If it is taken: there is an order under the id; the file was of an allowed type and
-- of at most 8 MiB, and a key in the directory of the order's seller leads to its bytes; a payment of
-- the order's total, submitted and with that key, stands behind the payments there were; and nothing
-- else of the tables changed, but that the order, if it was pending, may have gone on to payment_received. If it
-- fails, the tables are what they were.
pub public_upload_payment_outcome :
    (env : Env) (disk : Disk) (reason param : Text) (proof : Option Upload) (w : World)
    → ((p : Payment)
        → (public_upload_payment env disk reason param proof w).0 ≡ ok p
        → (id : Uuid) × (o : OrderRow) × (u : Upload) × (drawn : Uuid) × (key : Text)
          × (env.parse_uuid param ≡ some id)
          × (find (λ x. x.id == id) w.db.orders ≡ some o)
          × IsAccepted allowed_proof_mime proof u
          × (key ≡ key_for env o.tenant_id (codes "payments") drawn u.filename)
          × (read key (public_upload_payment env disk reason param proof w).1.files ≡ some u.bytes)
          × IsProof o id key w.db (public_upload_payment env disk reason param proof w).1.db p)
      × ((e : Error)
          → (public_upload_payment env disk reason param proof w).0 ≡ err e
          → (public_upload_payment env disk reason param proof w).1.db ≡ w.db)
public_upload_payment_outcome env disk reason param proof w = (
  public_upload_payment-ok env disk reason param proof w,
  (public_upload_payment-Atomic env disk reason param proof).holds w,
)
