-- ===== src/Tests/Uploads.antt =====
-- Uploads by sellers and guests at concrete inputs, and the links that serve them.
use agentic_mudahurus.Shared.{
  ◌≡◌, refl, true, find, none, some, [], ◌∷◌, Text, codes, text_eq, ◌==◌,
}
use agentic_mudahurus.Schema.{Uuid, OrderRow, Payment}
use agentic_mudahurus.World.{ok, err, Error, not_found}
use agentic_mudahurus.Tenancy.Identity.{Context, tid}
use agentic_mudahurus.Catalog.Repo
use agentic_mudahurus.Catalog.Service.{map_err}
use agentic_mudahurus.Storage.{
  Disk, Upload, read, check_upload, key_for, allowed_image_mime, allowed_proof_mime,
}
use agentic_mudahurus.Storage.Uploads.{IsAccepted}
use agentic_mudahurus.Catalog.Handler.{store_image, upload_image}
use agentic_mudahurus.Catalog.Handler.Uploads.{upload_image_outcome}
use agentic_mudahurus.Orders.Handler.{public_upload_payment}
use agentic_mudahurus.Orders.Handler.Proofs.{IsProof}
use agentic_mudahurus.Orders.Handler.Uploads.{public_upload_payment_outcome}
use agentic_mudahurus.Tests.Fixtures.{up, world}

abbrev sound_disk : Disk
sound_disk = record {
  makes_directory = true;
  creates = true;
  breaks_off = none;
  writes_type = true;
  removes = λ path. true;
}

abbrev picture : Upload
picture = record {
  opens = true;
  filename = codes "kopi.png";
  content_type = codes "image/png";
  bytes = 1 ∷ 2 ∷ 3 ∷ [];
}

abbrev aminah : Context
aminah = some (record { tenant_id = 1; role = codes "seller"; username = codes "aminah" })

public_upload_payment_outcome_example :
    ((p : Payment)
      → (public_upload_payment up sound_disk [] (50 ∷ []) (some picture) world).0 ≡ ok p
      → (id : Uuid) × (o : OrderRow) × (u : Upload) × (drawn : Uuid) × (key : Text) × (up.parse_uuid
            (50 ∷ [])
          ≡ some id)
        × (find (λ x. x.id == id) world.db.orders ≡ some o)
        × IsAccepted allowed_proof_mime (some picture) u
        × (key ≡ key_for up o.tenant_id (codes "payments") drawn u.filename)
        × (read key (public_upload_payment up sound_disk [] (50 ∷ []) (some picture) world).1.files
            ≡ some u.bytes)
        × IsProof o id key world.db
            (public_upload_payment up sound_disk [] (50 ∷ []) (some picture) world).1.db
            p)
    × ((e : Error)
        → (public_upload_payment up sound_disk [] (50 ∷ []) (some picture) world).0 ≡ err e
        → (public_upload_payment up sound_disk [] (50 ∷ []) (some picture) world).1.db ≡ world.db)
public_upload_payment_outcome_example =
    public_upload_payment_outcome up sound_disk [] (50 ∷ []) (some picture) world

abbrev base_url : Text
base_url = codes "http://localhost:8080/files"

abbrev new_key : Text
new_key = key_for up 1 (codes "products") 1000 (codes "kopi.png")

-- There is no product 99: the picture does not stay behind.
upload_image_outcome_example :
    ((upload_image up sound_disk [] aminah (99 ∷ []) (some picture) world).0
      ≡ err (map_err not_found))
    × (true ≡ true
        → read new_key (upload_image up sound_disk [] aminah (99 ∷ []) (some picture) world).1.files
          ≡ none)
    × ((upload_image up sound_disk [] aminah (99 ∷ []) (some picture) world).1.db ≡ world.db)
unfolding check_upload text_eq store_image agentic_mudahurus.World.map_error
    agentic_mudahurus.Storage.put_object tid Repo.set_product_image
    agentic_mudahurus.World.statement agentic_mudahurus.World.affected
upload_image_outcome_example =
    (upload_image_outcome up sound_disk [] aminah (99 ∷ []) (some picture) world).2 99 picture
      new_key not_found refl refl refl refl
