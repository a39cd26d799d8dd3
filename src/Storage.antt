-- ===== src/Storage.antt =====
-- api/internal/storage: the names of objects and the limits (storage.go), and LocalStorage (local.go) on
-- a file system that is a list of paths with their bytes. HMAC, the MIME table and the random source
-- are arguments. A path stands for the one that filepath.Join puts below the root.
pub mod Served
pub mod Uploads
use agentic_mudahurus.Shared.{
  ℕ, suc, ◌+◌, ◌*◌, Bool, true, false, Option, none, some, List, [], ◌∷◌, ◌++◌, not, ◌&&◌, ◌||◌,
  if◌then◌else◌, ltb, leb, ◌==◌, length, any, take, Text, codes, text_eq, is_empty,
}
use agentic_mudahurus.Shared.Decimal.{decimal}
use agentic_mudahurus.Schema.{Uuid, Time}
use agentic_mudahurus.World.{Env, Files, Action, Result, failure, ok, err}
use agentic_mudahurus.Httpx.Errors.{bad_request}

-- 8 << 20
abbrev pub max_upload_bytes : ℕ
max_upload_bytes = 8 * 1048576

abbrev pub is_safe : ℕ → Bool
is_safe c =
    leb b'a' c && leb c b'z'
    || leb b'A' c && leb c b'Z'
    || leb b'0' c && leb c b'9'
    || c == b'.'
    || c == b'-'
    || c == b'_'

unfoldable pub safe_runes : Text → Text
safe_runes [] = []
safe_runes (c ∷ s) = (if is_safe c then c else b'_') ∷ safe_runes s

abbrev pub or_file : Text → Text
or_file [] = codes "file"
or_file (c ∷ s) = c ∷ s

unfoldable pub sanitize : Text → Text
unfolding safe_runes
sanitize name = or_file (safe_runes name)

-- `keyFor`, with the UUID that is drawn
unfoldable pub key_for : Env → Uuid → Text → Uuid → Text → Text
unfolding sanitize
key_for env tenant prefix drawn filename =
    env.uuid_string tenant
    ++ codes "/"
    ++ prefix
    ++ codes "/"
    ++ env.uuid_string drawn
    ++ codes "-"
    ++ sanitize filename

-- ---- files ----

unfoldable pub read : Text → Files → Option (List ℕ)
read path [] = none
read path ((p, bytes) ∷ fs) = if text_eq p path then some bytes else read path fs

unfoldable pub remove : Text → Files → Files
remove path [] = []
remove path ((p, bytes) ∷ fs) =
    let rest = remove path fs in if text_eq p path then rest else (p, bytes) ∷ rest

unfoldable pub write : Text → List ℕ → Files → Files
unfolding remove
write path bytes fs = (path, bytes) ∷ remove path fs

abbrev is_absent : Option (List ℕ) → Bool
is_absent none = true
is_absent (some bytes) = false

-- Which steps of an upload or a deletion the operating system lets succeed; a copy may break off after some bytes.
pub record Disk : Type 0 where
  pub makes_directory : Bool
  pub creates : Bool
  pub breaks_off : Option ℕ
  pub writes_type : Bool
  pub removes : Text → Bool

-- os.Remove
abbrev pub remove_file : Disk → Text → Files → Files
remove_file disk path fs = if disk.removes path then remove path fs else fs

abbrev type_path : Text → Text
type_path key = key ++ codes ".ct"

abbrev pub with_type : Bool → Text → Text → Files → Files
with_type true key content_type fs = write (type_path key) content_type fs
with_type false key content_type fs = fs

-- once the file is created: `io.Copy` from the limited reader, then the test of the size
abbrev pub fill : Disk → Text → Text → List ℕ → Files → Option ℕ → Option (Text × ℕ) × Files
fill disk key content_type bytes fs (some k) = (none, write key (take k bytes) fs)
fill disk key content_type bytes fs none =
    let copied = take (suc max_upload_bytes) bytes in
    if ltb max_upload_bytes (length copied)
    then (none, remove_file disk key (write key copied fs))
    else (
      some (key, length copied),
      with_type disk.writes_type key content_type (write key copied fs),
    )

-- `Put` under a key; none is an error
unfoldable pub put : Disk → Text → Text → List ℕ → Files → Option (Text × ℕ) × Files
unfolding write remove
put disk key content_type bytes fs =
    if not (disk.makes_directory && disk.creates)
    then (none, fs)
    else fill disk key content_type bytes fs disk.breaks_off

abbrev chosen_type : (Text → Option Text) → Text → Option (List ℕ) → Text
chosen_type type_by_extension key (some (c ∷ s)) = c ∷ s
chosen_type type_by_extension key _ = elim (type_by_extension key) [
  | some t ↦ t
  | none ↦ codes "application/octet-stream"
]

abbrev opened : (Text → Option Text) → Text → Files → Option (List ℕ) → Option (List ℕ × Text)
opened type_by_extension key fs none = none
opened type_by_extension key fs (some bytes) =
    some (bytes, chosen_type type_by_extension key (read (type_path key) fs))

-- `Open`: the bytes and the content type
unfoldable pub open_file : (Text → Option Text) → Text → Files → Option (List ℕ × Text)
unfolding read
open_file type_by_extension key fs = opened type_by_extension key fs (read key fs)

-- `Delete`, and whether it returns no error: a file that is not there is none
unfoldable pub delete : Disk → Text → Files → Bool × Files
unfolding remove read
delete disk key fs =
    let without = remove_file disk (type_path key) fs in
    (is_absent (read key without) || disk.removes key, remove_file disk key without)

-- ---- signed links ----

-- the HMAC in hexadecimal, under the key of the signer
module _ (mac : Text → Text) where
  unfoldable pub sign : Text → Time → Text
  sign key exp = mac (key ++ codes ":" ++ decimal exp)

  unfoldable pub signed_get_url : Text → Time → Text → Time → Text
  unfolding sign
  signed_get_url base_url now key ttl =
      base_url
      ++ codes "/"
      ++ key
      ++ codes "?exp="
      ++ decimal (now + ttl)
      ++ codes "&sig="
      ++ sign key (now + ttl)

  unfoldable pub verify : Time → Text → Text → Time → Bool
  unfolding sign
  verify now key sig exp = if ltb exp now then false else text_eq (sign key exp) sig

-- ---- the interface `Storage`, on the files of the world ----

abbrev pub kept : Option (Text × ℕ) × Files → Action Text
kept (none, fs) w = (err failure, record w { files = fs; tick = suc w.tick })
kept (some (key, size), fs) w = (ok key, record w { files = fs; tick = suc w.tick })

-- `Put`, which draws the UUID of the key
unfoldable pub put_object :
    Env → Disk → Uuid → (prefix filename content_type : Text) → List ℕ → Action Text
unfolding key_for put
put_object env disk tenant prefix filename content_type bytes w =
    kept
      (put disk (key_for env tenant prefix (env.uuid w.tick) filename) content_type bytes w.files) w

abbrev outcome : Bool → Result (Unit {0})
outcome done = if done then ok tt else err failure

-- `Delete`
unfoldable pub delete_object : Disk → Text → Action (Unit {0})
unfolding delete
delete_object disk key w =
    let (done, fs) = delete disk key w.files in (outcome done, record w { files = fs })

-- The file of a multipart form.
pub record Upload : Type 0 where
  pub filename : Text
  pub content_type : Text
  pub bytes : List ℕ
  -- whether `file.Open()` succeeds
  pub opens : Bool

-- What a handler says of a file that it does not take.
pub record Refusals : Type 0 where
  pub absent : Text
  pub too_large : Text
  pub bad_type : Text

-- The checks of a handler before it stores a file, with the types that it allows.
unfoldable pub check_upload : Refusals → List Text → Option Upload → Result Upload
check_upload says allowed none = err (bad_request says.absent)
check_upload says allowed (some u) =
    if ltb max_upload_bytes (length u.bytes)
    then err (bad_request says.too_large)
    else if not (any (text_eq u.content_type) allowed)
    then err (bad_request (says.bad_type ++ u.content_type))
    else if not u.opens
    then err (bad_request (codes "cannot read upload"))
    else ok u

-- `AllowedImageMIME` and `AllowedProofMIME`
abbrev pub allowed_image_mime : List Text
allowed_image_mime =
    codes "image/jpeg" ∷ codes "image/png" ∷ codes "image/webp" ∷ codes "image/gif" ∷ []

abbrev pub allowed_proof_mime : List Text
allowed_proof_mime =
    codes "image/jpeg" ∷ codes "image/png" ∷ codes "image/webp" ∷ codes "application/pdf" ∷ []
