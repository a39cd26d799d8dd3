-- ===== src/Tests/Auth.antt =====
-- Accounts at concrete inputs, with functions in the place of the cryptographic libraries.
use agentic_mudahurus.Shared.{
  ℕ, zero, suc, ◌+◌, ◌-◌, ◌≡◌, ◌≢◌, ◌↔◌, refl, ap, true, false, Option, none, some, List, [], ◌∷◌,
  ◌++◌, map, length, take, drop, replicate, any, ◌==◌, ltb, if◌then◌else◌, Text, codes, text_eq,
  arith, byte_len, drop-append_length,
}
use agentic_mudahurus.Schema.{Time, Tenant}
use agentic_mudahurus.World.{ok, err, ◌>>=◌, time_now, new_uuid, inserted}
use agentic_mudahurus.Tenancy.Identity.{Identity, Context, from}
use agentic_mudahurus.Auth.Password.{
  Argon, default_params, derive, hash_password, verify_password, IsStandard, password_round_trip,
}
use agentic_mudahurus.Auth.Tokens.{
  Claims, Crypto, TokenManager, hash_token, issue_access, issue_refresh, authenticated,
  require_role,
}
use agentic_mudahurus.Auth.Tokens.Identified.{IsSound, issued_token_identifies, require_role_exact}
use agentic_mudahurus.Auth.Store
use agentic_mudahurus.Auth.Service.{TokenPair, refresh, reset, verify, invalid_refresh}
use agentic_mudahurus.Auth.Routes.{Call, run}
use agentic_mudahurus.Auth.Service.Reuse.Rotation.{refresh_single_use}
use agentic_mudahurus.Auth.Service.Reuse.Reset.{reset_single_use}
use agentic_mudahurus.Tests.Fixtures.{up, world, seller}

-- ---- passwords ----

abbrev shift : List ℕ → List ℕ
shift bytes = map (λ b. b + 100) bytes

abbrev unshift : List ℕ → List ℕ
unshift s = map (λ c. c - 100) s

abbrev toy_params : Text → Option (ℕ × ℕ × ℕ)
toy_params s = if text_eq s (codes "m=65536,t=3,p=2") then some (65536, 3, 2) else none

abbrev toy_argon : Argon
toy_argon = record {
  id_key = λ password salt t m p n. replicate n (length password);
  encode = shift;
  decode = λ s. some (unshift s);
  scan_version = λ s. some 19;
  scan_params = toy_params;
  random = λ k n. some (replicate n k);
}

unshift-shift : (bytes : List ℕ) → unshift (shift bytes) ≡ bytes
unshift-shift [] = refl
unshift-shift (b ∷ bytes) = ground (arith, unshift-shift bytes)

shift-no_dollar : (bytes : List ℕ) → any (λ c. c == 36) (shift bytes) ≡ false
shift-no_dollar [] = refl
shift-no_dollar (b ∷ bytes) = ground (arith, shift-no_dollar bytes)

length-replicate : (n c : ℕ) → length (replicate n c) ≡ n
length-replicate zero c = refl
length-replicate (suc n) c = ap suc (length-replicate n c)

toy_params-default : toy_params (codes "m=65536,t=3,p=2") ≡ some (65536, 3, 2)
unfolding text_eq
toy_params-default = refl

toy_argon-IsStandard : IsStandard toy_argon
toy_argon-IsStandard = record {
  round_trip = λ bytes. ap some (unshift-shift bytes);
  no_dollar = shift-no_dollar;
  version = refl;
  params = toy_params-default;
  key_length = λ password salt t m p n. length-replicate n (length password);
}

abbrev hashed : Text
hashed =
    codes "$argon2id$v=19$m=65536,t=3,p=2$"
    ++ shift (replicate 16 7)
    ++ b'$' ∷ shift (replicate 32 6)

hash_run : hash_password toy_argon 7 (codes "rahsia") ≡ some hashed
unfolding hash_password
hash_run = refl

password_round_trip_example :
    (verify_password toy_argon (codes "rahsia") hashed ≡ some true)
    × ((salt : List ℕ) × (verify_password toy_argon (codes "lain") hashed
          ≡ some (
              text_eq
                (derive toy_argon default_params (codes "rahsia") salt)
                (derive toy_argon default_params (codes "lain") salt))))
password_round_trip_example =
    password_round_trip toy_argon toy_argon-IsStandard 7 (codes "rahsia") (codes "lain") hashed
      hash_run

-- ---- tokens ----

-- A claim's texts one behind the other, after their lengths.
abbrev printed : Claims → Text
printed c =
    length c.tenant_id
    ∷ length c.role
    ∷ length c.username
    ∷ length c.subject
    ∷ c.expires_at
    ∷ c.issued_at
    ∷ (c.tenant_id ++ (c.role ++ (c.username ++ (c.subject ++ c.issuer))))

abbrev read_back : ℕ → ℕ → ℕ → ℕ → Time → Time → Text → Claims
read_back a b c d exp iat s = record {
  tenant_id = take a s;
  role = take b (drop a s);
  username = take c (drop b (drop a s));
  subject = take d (drop c (drop b (drop a s)));
  expires_at = exp;
  issued_at = iat;
  issuer = drop d (drop c (drop b (drop a s)));
}

abbrev toy_parse : Time → Text → Option Claims
toy_parse now (a ∷ b ∷ c ∷ d ∷ exp ∷ iat ∷ s) =
    if ltb now exp then some (read_back a b c d exp iat s) else none
toy_parse now _ = none

abbrev pub toy_crypto : Crypto
toy_crypto = record {
  sha256 = λ s. s;
  hex = λ s. s;
  sign = λ secret c. some (printed c);
  parse = λ secret now s. toy_parse now s;
  argon = toy_argon;
}

take-append_length : (s t : Text) → take (length s) (s ++ t) ≡ s
take-append_length [] t = refl
take-append_length (c ∷ s) t = ap (λ r. c ∷ r) (take-append_length s t)

toy_parse-printed :
    (c : Claims) (now : Time) → ltb now c.expires_at ≡ true → toy_parse now (printed c) ≡ some c
toy_parse-printed c now live =
    rw
      (
        live,
        take-append_length c.tenant_id (c.role ++ (c.username ++ (c.subject ++ c.issuer))),
        drop-append_length c.tenant_id (c.role ++ (c.username ++ (c.subject ++ c.issuer))),
        take-append_length c.role (c.username ++ (c.subject ++ c.issuer)),
        drop-append_length c.role (c.username ++ (c.subject ++ c.issuer)),
        take-append_length c.username (c.subject ++ c.issuer),
        drop-append_length c.username (c.subject ++ c.issuer),
        take-append_length c.subject c.issuer,
        drop-append_length c.subject c.issuer,
      )
      refl

toy_crypto-IsSound : IsSound up toy_crypto
toy_crypto-IsSound = record {
  parses = λ secret claims now s signed live. cc (toy_parse-printed claims now live, signed);
  uuid = λ id. refl;
}

abbrev manager : TokenManager
manager = record { access_secret = codes "secret"; access_ttl = 900; refresh_ttl = 604800 }

abbrev aminah : Tenant
aminah = seller 1 (codes "aminah")

abbrev access : Text
access = printed (record {
  tenant_id = 1 ∷ [];
  role = codes "seller";
  username = codes "aminah";
  subject = 1 ∷ [];
  expires_at = 1000900;
  issued_at = 1000001;
  issuer = codes "mudahurus";
})

issued :
    (issue_access up toy_crypto manager 1 (codes "seller") (codes "aminah") world).0
    ≡ ok (access, 1000900)
unfolding issue_access ◌>>=◌ time_now
issued = refl

issued_token_identifies_example :
    (authenticated up toy_crypto manager (codes "Bearer " ++ access) none world).0
    ≡ ok (some (record { tenant_id = 1; role = codes "seller"; username = codes "aminah" }))
issued_token_identifies_example =
    issued_token_identifies up toy_crypto manager toy_crypto-IsSound 1 (codes "seller")
      (codes "aminah") access 1000900 world world none issued refl

abbrev operator : Context
operator = some (record { tenant_id = 9; role = codes "operator"; username = codes "ops" })

require_role_exact_example :
    (require_role (codes "operator") operator ≡ ok tt)
    ↔ ((id : Identity) × (from operator ≡ some id) × (id.role ≡ codes "operator"))
require_role_exact_example = require_role_exact (codes "operator") operator

-- ---- tokens that work once ----

abbrev pair : TokenPair
pair = record {
  access_token = printed (record {
    tenant_id = 1 ∷ [];
    role = codes "seller";
    username = codes "aminah";
    subject = 1 ∷ [];
    expires_at = 1000902;
    issued_at = 1000003;
    issuer = codes "mudahurus";
  });
  refresh_token = 1004 ∷ b'.' ∷ 1005 ∷ [];
  expires_at = 1000902;
  tenant = aminah;
}

refreshed : (refresh up toy_crypto manager (codes "r1") world).0 ≡ ok pair
unfolding refresh ◌>>=◌ Store.rotate_refresh text_eq hash_token Store.tenant_by_id issue_access
    time_now issue_refresh new_uuid Store.save_refresh inserted
refreshed = refl

refresh_single_use_example :
    (refresh up toy_crypto manager (codes "r1") (
      run up toy_crypto manager
        (Call.logout (codes "r9") ∷ [])
        (refresh up toy_crypto manager (codes "r1") world).1)).0
    ≡ err invalid_refresh
refresh_single_use_example =
    refresh_single_use up toy_crypto manager (codes "r1") world pair (Call.logout (codes "r9") ∷ [])
      ((λ e. refl), tt) refreshed

reset_done : (reset up toy_crypto (codes "t1") (codes "katalaluan") world).0 ≡ ok tt
unfolding reset ◌>>=◌ byte_len Store.consume_auth_token text_eq hash_token hash_password
    Store.update_password
reset_done = refl

reset_single_use_example :
    ((reset up toy_crypto (codes "t1") (codes "lain-lain") (
        run up toy_crypto manager []
          (reset up toy_crypto (codes "t1") (codes "katalaluan") world).1)).0
      ≢ ok tt)
    × ((verify up toy_crypto (codes "t1") (
          run up toy_crypto manager []
            (reset up toy_crypto (codes "t1") (codes "katalaluan") world).1)).0
        ≢ ok tt)
reset_single_use_example =
    reset_single_use up toy_crypto manager (codes "t1") (codes "katalaluan") (codes "lain-lain")
      world [] ((λ e. refl), tt) reset_done
