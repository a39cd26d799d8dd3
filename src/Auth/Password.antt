-- ===== src/Auth/Password.antt =====
-- api/internal/auth/argon2.go. Argon2 itself, base64, the random source and fmt.Sscanf are arguments.
use agentic_mudahurus.Shared.{
  ℕ, ◌≡◌, refl, sym, ◌∙◌, ap, inl, inr, none_or_some, ==_refl, Bool, true, false, Option, none,
  some, List, [], ◌∷◌, ◌++◌, if◌then◌else◌, ◌==◌, not, length, any, Text, codes, text_eq, ◌*◌,
  text_eq_refl, arith,
}
use mathlib.Core.Option

pub record Argon : Type 0 where
  -- argon2.IDKey(password, salt, iterations, memory, parallelism, keyLength)
  pub id_key : Text → List ℕ → ℕ → ℕ → ℕ → ℕ → List ℕ
  -- base64.RawStdEncoding
  pub encode : List ℕ → Text
  pub decode : Text → Option (List ℕ)
  -- Sscanf(s, "v=%d", …) and Sscanf(s, "m=%d,t=%d,p=%d", …)
  pub scan_version : Text → Option ℕ
  pub scan_params : Text → Option (ℕ × ℕ × ℕ)
  -- rand.Read, by the number of the interaction; none is an error
  pub random : ℕ → ℕ → Option (List ℕ)

pub record Argon2Params : Type 0 where
  pub memory : ℕ
  pub iterations : ℕ
  pub parallelism : ℕ
  pub salt_length : ℕ
  pub key_length : ℕ

abbrev pub default_params : Argon2Params
default_params = record {
  memory = 64 * 1024;
  iterations = 3;
  parallelism = 2;
  salt_length = 16;
  key_length = 32;
}

-- strings.Split(s, sep) with a separator of one character; never an empty list
unfoldable pub split : ℕ → Text → List Text
split sep [] = [] ∷ []
split sep (c ∷ s) =
    let rest = split sep s in
    if c == sep then [] ∷ rest else elim rest [ [] ↦ (c ∷ []) ∷ [] | p ∷ ps ↦ (c ∷ p) ∷ ps ]

module _ (argon : Argon) where
  abbrev pub derive : Argon2Params → Text → List ℕ → List ℕ
  derive p password salt =
      argon.id_key password salt p.iterations p.memory p.parallelism p.key_length

  -- fmt.Sprintf("$argon2id$v=%d$m=%d,t=%d,p=%d$%s$%s", 19, …) with the default parameters
  unfoldable pub encoded_form : List ℕ → List ℕ → Text
  encoded_form salt hash =
      codes "$argon2id$v=19$m=65536,t=3,p=2$" ++ argon.encode salt ++ b'$' ∷ argon.encode hash

  -- `HashPassword`, at the given interaction with the random source
  unfoldable pub hash_password : ℕ → Text → Option Text
  unfolding encoded_form Option.bind
  hash_password k password =
      Option.bind (argon.random k default_params.salt_length)
        λ salt. some (encoded_form salt (derive default_params password salt))

  -- the parameters that an encoded form states, with the length of the hash it holds
  abbrev stated : ℕ × ℕ × ℕ → List ℕ → Argon2Params
  stated (m, t, p) want = record {
    memory = m;
    iterations = t;
    parallelism = p;
    salt_length = 0;
    key_length = length want;
  }

  unfoldable pub verify_parts : Text → List Text → Option Bool
  unfolding Option.bind
  verify_parts password (first ∷ name ∷ version ∷ params ∷ salt ∷ hash ∷ []) =
      if not (text_eq name (codes "argon2id"))
      then none
      else Option.bind (argon.scan_version version) λ v.
        Option.bind (argon.scan_params params) λ ps. Option.bind (argon.decode salt) λ salt_bytes.
          Option.bind (argon.decode hash)
            λ want. some (text_eq want (derive (stated ps want) password salt_bytes))
  verify_parts password _ = none

  -- `VerifyPassword`: none is ErrInvalidHash
  unfoldable pub verify_password : Text → Text → Option Bool
  unfolding verify_parts split
  verify_password password encoded = verify_parts password (split b'$' encoded)

  -- What the code relies on from base64 and Sscanf.
  pub record IsStandard : Type 0 where
    pub round_trip : (bytes : List ℕ) → argon.decode (argon.encode bytes) ≡ some bytes
    pub no_dollar : (bytes : List ℕ) → any (λ c. c == b'$') (argon.encode bytes) ≡ false
    pub version : argon.scan_version (codes "v=19") ≡ some 19
    pub params : argon.scan_params (codes "m=65536,t=3,p=2") ≡ some (65536, 3, 2)
    pub key_length :
        (password : Text) (salt : List ℕ) (t m p n : ℕ)
        → length (argon.id_key password salt t m p n) ≡ n

split-none : (sep : ℕ) (s : Text) → any (λ c. c == sep) s ≡ false → split sep s ≡ s ∷ []
unfolding split
split-none sep [] h = refl
split-none sep (c ∷ s) h =
    let rest = split-none sep s ground arith in
    let away : (c == sep) ≡ false = ground arith in rw (rest, away) refl

split-at :
    (sep : ℕ) (s t : Text)
    → any (λ c. c == sep) s ≡ false
    → split sep (s ++ sep ∷ t) ≡ s ∷ split sep t
unfolding split
split-at sep [] t h = rw (==_refl sep) refl
split-at sep (c ∷ s) t h =
    let rest = split-at sep s t ground arith in
    let away : (c == sep) ≡ false = ground arith in rw (rest, away) refl

split-encoded :
    (argon : Argon) (salt hash : List ℕ)
    → IsStandard argon
    → split b'$' (encoded_form argon salt hash)
      ≡ []
        ∷ codes "argon2id"
        ∷ codes "v=19"
        ∷ codes "m=65536,t=3,p=2"
        ∷ argon.encode salt
        ∷ argon.encode hash
        ∷ []
unfolding encoded_form split
split-encoded argon salt hash std =
    rw
      (
        split-at b'$' (argon.encode salt) (argon.encode hash) (std.no_dollar salt),
        split-none b'$' (argon.encode hash) (std.no_dollar hash),
      )
      refl

verify-encoded :
    (argon : Argon) (salt : List ℕ) (password other : Text)
    → IsStandard argon
    → verify_password argon other
        (encoded_form argon salt (derive argon default_params password salt))
      ≡ some (
          text_eq
            (derive argon default_params password salt)
            (derive argon default_params other salt))
unfolding verify_password verify_parts Option.bind
verify-encoded argon salt password other std =
    let hash = derive argon default_params password salt in
    rw
      (
        split-encoded argon salt hash std,
        text_eq_refl (codes "argon2id"),
        std.version,
        std.params,
        std.round_trip salt,
        std.round_trip hash,
        std.key_length password salt 3 65536 2 32,
      )
      refl

-- Whatever the salt: a password that was hashed verifies against its hash, and another verifies only if
-- Argon2 derives the same key from it.
pub password_round_trip :
    (argon : Argon)
    → IsStandard argon
    → (k : ℕ) (password other encoded : Text) → hash_password argon k password ≡ some encoded
    → (verify_password argon password encoded ≡ some true)
      × ((salt : List ℕ) × (verify_password argon other encoded
            ≡ some (
                text_eq
                  (derive argon default_params password salt)
                  (derive argon default_params other salt))))
unfolding hash_password Option.bind
password_round_trip argon std k password other encoded h = elim (none_or_some (argon.random k 16)) [
  | inl e ↦ cc (rw e at h)
  | inr (salt, e) ↦
      let form : encoded_form argon salt (derive argon default_params password salt) ≡ encoded =
        cc (rw e at h) in
      rw (sym form) (
        verify-encoded argon salt password password std ∙ ap some (text_eq_refl _),
        (salt, verify-encoded argon salt password other std),
      )
]
