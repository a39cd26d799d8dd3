-- ===== src/Auth/Tokens.antt =====
-- api/internal/auth/jwt.go and middleware.go. SHA-256, hexadecimal and the JWT library are arguments.
pub mod Identified
use agentic_mudahurus.Shared.{
  ℕ, ◌+◌, Bool, true, false, Option, none, some, List, ◌++◌, ◌∷◌, [], if◌then◌else◌, not, Text,
  codes, text_eq, has_prefix, drop, suc,
}
use agentic_mudahurus.Schema.{Uuid, Time}
use agentic_mudahurus.World.{
  Env, Error, failure, Result, ok, err, Action, World, pure, raise, require, map_error, time_now,
  new_uuid, ◌>>=◌, ◌>>◌,
}
use agentic_mudahurus.Httpx.Errors.{unauthorized, forbidden}
use agentic_mudahurus.Tenancy.Identity.{Identity, Context, with_identity, from}
use agentic_mudahurus.Auth.Password.{Argon}

pub record Claims : Type 0 where
  pub tenant_id : Text
  pub role : Text
  pub username : Text
  pub subject : Text
  pub expires_at : Time
  pub issued_at : Time
  pub issuer : Text

pub record Crypto : Type 0 where
  pub sha256 : Text → List ℕ
  pub hex : List ℕ → Text
  -- jwt: SignedString and ParseWithClaims for HMAC, under a secret; the parser looks at the clock
  pub sign : Text → Claims → Option Text
  pub parse : Text → Time → Text → Option Claims
  pub argon : Argon

pub record TokenManager : Type 0 where
  pub access_secret : Text
  pub access_ttl : Time
  pub refresh_ttl : Time

module _ (env : Env) (crypto : Crypto) where
  unfoldable pub hash_token : Text → Text
  hash_token token = crypto.hex (crypto.sha256 token)

  abbrev pub access_claims : Uuid → Text → Text → Time → Time → Claims
  access_claims tenant role username exp now = record {
    tenant_id = env.uuid_string tenant;
    role = role;
    username = username;
    subject = env.uuid_string tenant;
    expires_at = exp;
    issued_at = now;
    issuer = codes "mudahurus";
  }

  unfoldable pub issue_access : TokenManager → Uuid → Text → Text → Action (Text × Time)
  issue_access m tenant role username = do
    start ← time_now env
    now ← time_now env
    s ←
        require
          (crypto.sign m.access_secret
            (access_claims tenant role username (start + m.access_ttl) now))
          failure
    pure (s, start + m.access_ttl)

  -- ErrInvalidToken is `failure`: every caller replaces it
  unfoldable pub parse_access : TokenManager → Text → Action Claims
  parse_access m token = do
    now ← time_now env
    require (crypto.parse m.access_secret now token) failure

  -- uuid.NewString() + "." + uuid.NewString()
  unfoldable pub random_token : Action Text
  random_token = do
    a ← new_uuid env
    b ← new_uuid env
    pure (env.uuid_string a ++ codes "." ++ env.uuid_string b)

  -- the token for the client, its hash, and the expiry
  unfoldable pub issue_refresh : TokenManager → Action (Text × Text × Time)
  unfolding random_token hash_token
  issue_refresh m = do
    token ← random_token
    now ← time_now env
    pure (token, hash_token token, now + m.refresh_ttl)

  -- ---- middleware ----

  -- `Authenticated`, on the Authorization header and the context of the request
  unfoldable pub authenticated : TokenManager → Text → Context → Action Context
  unfolding parse_access with_identity
  authenticated m authz ctx =
      if not (has_prefix authz (codes "Bearer "))
      then raise (unauthorized (codes "missing bearer token"))
      else do
        claims ←
            map_error (λ _. unauthorized (codes "invalid or expired token"))
              (parse_access m (drop 7 authz))
        id ←
            require (env.parse_uuid claims.tenant_id) (unauthorized (codes "invalid token subject"))
        pure (
            with_identity ctx
              (record { tenant_id = id; role = claims.role; username = claims.username }))

-- `RequireRole`
unfoldable pub role_verdict : Text → Option Identity → Result (Unit {0})
role_verdict role none = err (unauthorized (codes "authentication required"))
role_verdict role (some id) =
    if not (text_eq id.role role) then err (forbidden (codes "insufficient role")) else ok tt

unfoldable pub require_role : Text → Context → Result (Unit {0})
unfolding role_verdict from
require_role role ctx = role_verdict role (from ctx)
