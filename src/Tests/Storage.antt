-- ===== src/Tests/Storage.antt =====
-- Uploads and links at concrete inputs.
use agentic_mudahurus.Shared.{
  List, ℕ, [], ◌∷◌, ◌≡◌, ◌≤◌, refl, true, Option, none, some, length, Text, codes,
}
use agentic_mudahurus.Storage.{max_upload_bytes, sanitize, Disk, put, open_file}
use agentic_mudahurus.Storage.Served.{put_round_trip}

sanitized : sanitize (codes "../resit (1).png") ≡ codes ".._resit__1_.png"
unfolding sanitize
sanitized = refl

abbrev sound_disk : Disk
sound_disk = record {
  makes_directory = true;
  creates = true;
  breaks_off = none;
  writes_type = true;
  removes = λ path. true;
}

no_extension : Text → Option Text
no_extension s = none

abbrev bytes : List ℕ
bytes = 1 ∷ 2 ∷ 3 ∷ []

uploaded : (put sound_disk (codes "k") (codes "image/png") (bytes) []).0 ≡ some (codes "k", 3)
unfolding put
uploaded = refl

put_round_trip_example :
    (codes "k" ≡ codes "k")
    × (3 ≡ length (bytes))
    × (3 ≤ max_upload_bytes)
    × (open_file no_extension
          (codes "k")
          (put sound_disk (codes "k") (codes "image/png") (bytes) []).1
        ≡ some (bytes, codes "image/png"))
put_round_trip_example =
    put_round_trip sound_disk no_extension (codes "k") b'i' (codes "mage/png") (bytes) []
      (codes "k") 3 uploaded refl
