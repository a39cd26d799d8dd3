-- ===== src/Storage/Served.antt =====
-- What is stored is served, under a safe name and a link that expires.
use agentic_mudahurus.Shared.{
  ℕ, zero, suc, ◌≤◌, ◌≡◌, ◌≢◌, ◌↔◌, refl, sym, ◌∙◌, ap, true, false, Option, none, some, List, [],
  ◌∷◌, ◌++◌, if◌then◌else◌, ◌&&◌, ltb, length, length-append, take, Text, codes, text_eq,
  text_eq_sound, text_eq_refl, is_empty, All, arith, Bool-cases, inl, inr,
}
use agentic_mudahurus.Schema.{Time}
use agentic_mudahurus.World.{Files}
use agentic_mudahurus.Storage.{
  max_upload_bytes, is_safe, safe_runes, sanitize, or_file, read, remove, write, Disk, put, fill,
  open_file, sign, verify,
}

safe_runes-IsSafe : (s : Text) → All (λ c. is_safe c ≡ true) (safe_runes s)
unfolding safe_runes
safe_runes-IsSafe [] = tt
safe_runes-IsSafe (c ∷ s) = (safe_rune c, safe_runes-IsSafe s)
  where
    safe_rune : (c : ℕ) → is_safe (if is_safe c then c else b'_') ≡ true
    safe_rune c = elim (Bool-cases (is_safe c)) [ inl e ↦ rw e e | inr e ↦ rw e refl ]

or_file-safe :
    (s : Text)
    → All (λ c. is_safe c ≡ true) s
    → All (λ c. is_safe c ≡ true) (or_file s) × (is_empty (or_file s) ≡ false)
or_file-safe [] h = ((refl, (refl, (refl, (refl, tt)))), refl)
or_file-safe (c ∷ s) h = (h, refl)

-- The name of an object, whatever file name a client sends, is not empty and has letters, digits, dots,
-- dashes and underscores only: no separator of paths is among them.
pub sanitize_safe :
    (name : Text)
    → All (λ c. (is_safe c ≡ true) × (c ≢ b'/')) (sanitize name)
      × (is_empty (sanitize name) ≡ false)
unfolding sanitize
sanitize_safe name =
    let (safe, full) = or_file-safe (safe_runes name) (safe_runes-IsSafe name) in
    (no_slash (or_file (safe_runes name)) safe, full)
  where
    no_slash :
        (s : Text) → All (λ c. is_safe c ≡ true) s → All (λ c. (is_safe c ≡ true) × (c ≢ b'/')) s
    no_slash [] h = tt
    no_slash (c ∷ s) (here, h) = ((here, λ e. absurd (ground arith)), no_slash s h)

-- A link verifies exactly with the signature that the storage gives for its key and its expiry, and up to
-- that second.
pub verify_exact :
    (mac : Text → Text) (now exp : Time) (key sig : Text)
    → (verify mac now key sig exp ≡ true) ↔ ((now ≤ exp) × (sig ≡ sign mac key exp))
unfolding verify
verify_exact mac now exp key sig = (
  λ h. (ground arith, sym (text_eq_sound (sign mac key exp) sig ground arith)),
  λ (early, same). rw same (rw (text_eq_refl (sign mac key exp)) ground arith),
)

-- ---- an upload and the read of it ----

pub read-write :
    (path : Text) (bytes : List ℕ) (fs : Files) → read path (write path bytes fs) ≡ some bytes
unfolding read write
read-write path bytes fs = rw (text_eq_refl path) refl

pub read-remove :
    (path other : Text) (fs : Files)
    → text_eq other path ≡ false
    → read path (remove other fs) ≡ read path fs
unfolding read remove
read-remove path other [] away = refl
read-remove path other ((p, bytes) ∷ fs) away = elim (Bool-cases (text_eq p other)) [
  | inl e ↦
      let moved : text_eq p path ≡ false = rw (text_eq_sound p other e) away in
      rw (e, moved) (read-remove path other fs away)
  | inr e ↦ elim (Bool-cases (text_eq p path)) [
    | inl here ↦ rw (e, here) refl
    | inr on ↦ rw (e, on) (read-remove path other fs away)
  ]
]

pub read-write-other :
    (path other : Text) (bytes : List ℕ) (fs : Files)
    → text_eq other path ≡ false
    → read path (write other bytes fs) ≡ read path fs
unfolding read write
read-write-other path other bytes fs away = rw away (read-remove path other fs away)

pub take-short : (m : ℕ) (xs : List ℕ) → length (take (suc m) xs) ≤ m → take (suc m) xs ≡ xs
take-short m [] h = refl
take-short zero (x ∷ xs) h = absurd (omega (arith, h))
take-short (suc m) (x ∷ xs) h = ap (λ ys. x ∷ ys) (take-short m xs (omega (arith, h)))

pub type_path-away : (key : Text) → text_eq (key ++ codes ".ct") key ≡ false
type_path-away key = elim (Bool-cases (text_eq (key ++ codes ".ct") key)) [
  | inr e ↦ e
  | inl e ↦
      let same = ap (λ s. length s) (text_eq_sound (key ++ codes ".ct") key e) in
      absurd (omega (arith, same, length-append key (codes ".ct")))
]

abbrev pub copied : List ℕ → List ℕ
copied bytes = take (suc max_upload_bytes) bytes

-- What an upload that returned a key left behind.
record Left (key content_type : Text) (bytes : List ℕ) (fs : Files) (k : Text) (n : ℕ)
    (after : Files) : Type 0 where
  small : ltb max_upload_bytes (length (copied bytes)) ≡ false
  name : k ≡ key
  size : n ≡ length (copied bytes)
  files : after ≡ write (key ++ codes ".ct") content_type (write key (copied bytes) fs)

fill-ok :
    (disk : Disk) (key content_type : Text) (bytes : List ℕ) (fs : Files) (k : Text) (n : ℕ)
    (broken : Option ℕ)
    → (fill disk key content_type bytes fs broken).0 ≡ some (k, n)
    → disk.writes_type ≡ true
    → Left key content_type bytes fs k n (fill disk key content_type bytes fs broken).1
fill-ok disk key content_type bytes fs k n (some b) h typed = absurd (cc h)
fill-ok disk key content_type bytes fs k n none h typed =
    elim (Bool-cases (ltb max_upload_bytes (length (copied bytes)))) [
      | inl large ↦ absurd (cc (rw large at h))
      | inr small ↦
          let pair : (◌≡◌ {A = Text × ℕ} (key, length (copied bytes)) (k, n)) =
            cc (rw small at h) in
          rw small (record {
            small = small;
            name = sym (ap (λ (p : Text × ℕ). p.0) pair);
            size = sym (ap (λ (p : Text × ℕ). p.1) pair);
            files = rw typed refl;
          })
    ]

put-ok :
    (disk : Disk) (key content_type : Text) (bytes : List ℕ) (fs : Files) (k : Text) (n : ℕ)
    → (put disk key content_type bytes fs).0 ≡ some (k, n)
    → disk.writes_type ≡ true
    → Left key content_type bytes fs k n (put disk key content_type bytes fs).1
unfolding put
put-ok disk key content_type bytes fs k n h typed =
    elim (Bool-cases (disk.makes_directory && disk.creates)) [
      | inl e ↦ rw e (fill-ok disk key content_type bytes fs k n disk.breaks_off (rw e at h) typed)
      | inr e ↦ absurd (cc (rw e at h))
    ]

open_written :
    (type_by_extension : Text → Option Text) (key : Text) (c : ℕ) (t : Text) (bytes : List ℕ)
    (fs : Files)
    → open_file type_by_extension key (write (key ++ codes ".ct") (c ∷ t) (write key bytes fs))
      ≡ some (bytes, c ∷ t)
unfolding open_file
open_written type_by_extension key c t bytes fs =
    let body =
      read-write-other key (key ++ codes ".ct") (c ∷ t) (write key bytes fs) (type_path-away key)
      ∙ read-write key bytes fs in
    rw (body, read-write (key ++ codes ".ct") (c ∷ t) (write key bytes fs)) refl

-- What was uploaded is what is served. If an upload returns a key and a size, and its content type, which is
-- not empty, could be written beside it, then the key is the one asked for, the size is that of all
-- the bytes and at most 8 MiB, and opening the key gives those bytes and that content type.
pub put_round_trip :
    (disk : Disk) (type_by_extension : Text → Option Text) (key : Text) (c : ℕ) (t : Text)
    (bytes : List ℕ) (fs : Files) (k : Text) (n : ℕ)
    → (put disk key (c ∷ t) bytes fs).0 ≡ some (k, n)
    → disk.writes_type ≡ true
    → (k ≡ key)
      × (n ≡ length bytes)
      × (n ≤ max_upload_bytes)
      × (open_file type_by_extension k (put disk key (c ∷ t) bytes fs).1 ≡ some (bytes, c ∷ t))
put_round_trip disk type_by_extension key c t bytes fs k n h typed =
    let left = put-ok disk key (c ∷ t) bytes fs k n h typed in
    let small : length (copied bytes) ≤ max_upload_bytes =
      not_larger (length (copied bytes)) left.small in
    let whole = take-short max_upload_bytes bytes small in
    (
      left.name,
      left.size ∙ ap (λ s. length s) whole,
      rw left.size small,
      rw (left.name, left.files)
          (open_written type_by_extension key c t (copied bytes) fs
            ∙ ap (λ s. some (s, c ∷ t)) whole),
    )
  where
    not_larger : (m : ℕ) → ltb max_upload_bytes m ≡ false → m ≤ max_upload_bytes
    not_larger m e = ground arith
