-- ===== src/Storage/Uploads.antt =====
-- What an upload leaves among the files, and what its removal takes away.
use agentic_mudahurus.Shared.{
  ℕ, ◌≤◌, ◌≡◌, refl, sym, ◌∙◌, ap, Bool, true, false, Option, none, some, List, [], ◌∷◌, ◌++◌, ◌&&◌,
  any, ltb, length, Text, codes, text_eq, arith, Bool-cases, inl, inr,
}
use agentic_mudahurus.Schema.{Uuid, Db}
use agentic_mudahurus.World.{Env, World, Files, ok}
use agentic_mudahurus.World.Preserves.{Preserves}
use agentic_mudahurus.Storage.{
  remove_file, max_upload_bytes, key_for, read, remove, write, delete, Disk, put, fill, with_type,
  kept, put_object, delete_object, Upload, Refusals, check_upload,
}
use agentic_mudahurus.Storage.Served.{
  copied, read-write, read-write-other, take-short, type_path-away,
}

stored-small :
    (typed : Bool) (key content_type : Text) (bytes : List ℕ) (fs : Files)
    → ltb max_upload_bytes (length (copied bytes)) ≡ false
    → read key (with_type typed key content_type (write key (copied bytes) fs)) ≡ some bytes
stored-small typed key content_type bytes fs small =
    with_body typed
    ∙ ap (λ s. some s)
        (take-short max_upload_bytes bytes (not_larger (length (copied bytes)) small))
  where
    not_larger : (m : ℕ) → ltb max_upload_bytes m ≡ false → m ≤ max_upload_bytes
    not_larger m e = ground arith

    with_body :
        (b : Bool)
        → read key (with_type b key content_type (write key (copied bytes) fs))
          ≡ some (copied bytes)
    with_body false = read-write key (copied bytes) fs
    with_body true =
        read-write-other key (key ++ codes ".ct") content_type (write key (copied bytes) fs)
          (type_path-away key)
        ∙ read-write key (copied bytes) fs

fill-stored :
    (disk : Disk) (key content_type : Text) (bytes : List ℕ) (fs : Files) (k : Text) (n : ℕ)
    (broken : Option ℕ)
    → (fill disk key content_type bytes fs broken).0 ≡ some (k, n)
    → (k ≡ key) × (read key (fill disk key content_type bytes fs broken).1 ≡ some bytes)
fill-stored disk key content_type bytes fs k n (some b) h = absurd (cc h)
fill-stored disk key content_type bytes fs k n none h =
    elim (Bool-cases (ltb max_upload_bytes (length (copied bytes)))) [
      | inl large ↦ absurd (cc (rw large at h))
      | inr small ↦
          let pair : (◌≡◌ {A = Text × ℕ} (key, length (copied bytes)) (k, n)) =
            cc (rw small at h) in
          (
            sym (ap (λ (p : Text × ℕ). p.0) pair),
            rw small (stored-small disk.writes_type key content_type bytes fs small),
          )
    ]

pub put-stored :
    (disk : Disk) (key content_type : Text) (bytes : List ℕ) (fs : Files) (k : Text) (n : ℕ)
    → (put disk key content_type bytes fs).0 ≡ some (k, n)
    → (k ≡ key) × (read key (put disk key content_type bytes fs).1 ≡ some bytes)
unfolding put
put-stored disk key content_type bytes fs k n h =
    elim (Bool-cases (disk.makes_directory && disk.creates)) [
      | inl e ↦ rw e (fill-stored disk key content_type bytes fs k n disk.breaks_off (rw e at h))
      | inr e ↦ absurd (cc (rw e at h))
    ]

kept-ok :
    (r : Option (Text × ℕ) × Files) (w : World) (key : Text)
    → (kept r w).0 ≡ ok key
    → (n : ℕ) × (r.0 ≡ some (key, n)) × ((kept r w).1.files ≡ r.1)
kept-ok (none, fs) w key h = absurd (cc h)
kept-ok (some (k, n), fs) w key h =
    let same : k ≡ key = cc h in (n, ap (λ s. some (s, n)) same, refl)

kept-keeps :
    (P : Db → Type 0) (r : Option (Text × ℕ) × Files) (w : World) → P w.db → P (kept r w).1.db
kept-keeps P (none, fs) w before = before
kept-keeps P (some (k, n), fs) w before = before

module _ (env : Env) (disk : Disk) (t : Uuid) (prefix filename content_type : Text)
    (bytes : List ℕ) where
  -- An upload that returns a key has stored the bytes under it, in the directory of the tenant.
  pub put_object-stored :
      (w : World) (key : Text)
      → (put_object env disk t prefix filename content_type bytes w).0 ≡ ok key
      → (key ≡ key_for env t prefix (env.uuid w.tick) filename)
        × (read key (put_object env disk t prefix filename content_type bytes w).1.files
            ≡ some bytes)
  unfolding put_object
  put_object-stored w key h =
      let name = key_for env t prefix (env.uuid w.tick) filename in
      let (n, stored, files) = kept-ok (put disk name content_type bytes w.files) w key h in
      let (same, found) = put-stored disk name content_type bytes w.files key n stored in
      (same, ap (read key) files ∙ rw same found)

  pub Preserves-put_object :
      {P : Db → Type 0} → Preserves P (put_object env disk t prefix filename content_type bytes)
  unfolding put_object
  Preserves-put_object {P} = record {
    holds = λ w before.
        kept-keeps P
          (put disk (key_for env t prefix (env.uuid w.tick) filename) content_type bytes w.files) w
          before;
  }

pub Preserves-delete_object :
    {P : Db → Type 0} (disk : Disk) (key : Text) → Preserves P (delete_object disk key)
unfolding delete_object
Preserves-delete_object disk key = record { holds = λ w before. before }

-- What the file system lets go is gone.
pub read-delete :
    (disk : Disk) (key : Text) (fs : Files)
    → disk.removes key ≡ true
    → read key (delete disk key fs).1 ≡ none
unfolding delete read remove
read-delete disk key fs lets = rw lets (gone (remove_file disk (key ++ codes ".ct") fs))
  where
    gone : (fs : Files) → read key (remove key fs) ≡ none
    gone [] = refl
    gone ((p, bytes) ∷ fs) = let rest = gone fs in ground arith

-- A file that passes the checks of a handler.
pub record IsAccepted (allowed : List Text) (file : Option Upload) (u : Upload) : Type 0 where
  pub given : file ≡ some u
  pub small : length u.bytes ≤ max_upload_bytes
  pub typed : any (text_eq u.content_type) allowed ≡ true

passed :
    (says : Refusals) (allowed : List Text) (v u : Upload)
    → check_upload says allowed (some v) ≡ ok u
    → (length v.bytes ≤ max_upload_bytes) × (any (text_eq v.content_type) allowed ≡ true) × (v ≡ u)
unfolding check_upload
passed says allowed v u h = (ground arith, ground arith, ground arith)

pub check_upload-IsAccepted :
    (says : Refusals) (allowed : List Text) (file : Option Upload) (u : Upload)
    → check_upload says allowed file ≡ ok u
    → IsAccepted allowed file u
unfolding check_upload
check_upload-IsAccepted says allowed none u h = absurd (cc h)
check_upload-IsAccepted says allowed (some v) u h =
    let (small, typed, same) = passed says allowed v u h in
    record { given = ap (λ x. some x) same; small = rw (← same) small; typed = rw (← same) typed }
