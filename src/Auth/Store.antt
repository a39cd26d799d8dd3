-- ===== src/Auth/Store.antt =====
-- api/internal/auth/store.go, with the constraints of migrations/000001_tenants.up.sql.
use agentic_mudahurus.Shared.{
  Bool, true, false, Option, none, some, [], ◌∷◌, ◌++◌, not, ◌&&◌, ◌||◌, ltb, ◌==◌, any, find,
  update_where, Text, codes, text_eq,
}
use agentic_mudahurus.Schema.{
  Uuid, Time, Tenant, RefreshToken, Purpose, verify_email, reset_password, AuthToken, Db,
}
use agentic_mudahurus.World.{
  not_found, Result, ok, err, Env, Action, statement, require, ◌>>=◌, inserted,
}
use agentic_mudahurus.Catalog.Repo.{has_tenant}

-- ---- tenants ----

-- UNIQUE username, UNIQUE email, CHECK (role IN ('seller','operator'))
tenant_fits : Db → Tenant → Bool
tenant_fits db t =
    not (
      any (λ x. x.id == t.id || text_eq x.username t.username || text_eq x.email t.email)
        db.tenants)
    && (text_eq t.role (codes "seller") || text_eq t.role (codes "operator"))

unfoldable pub create_tenant : Env → Tenant → Action Tenant
unfolding tenant_fits
create_tenant env t = statement env λ k db.
    let u : Tenant = record t { id = env.uuid k; email_verified = false; created_at = env.now k } in
    inserted (tenant_fits db u) u (record db { tenants = db.tenants ++ u ∷ [] }) db

-- `tenantByQuery`, with the WHERE clause as a test
unfoldable pub tenant_by_query : Env → (Tenant → Bool) → Action Tenant
tenant_by_query env where_clause = do
  found ← statement env (λ k db. (ok (find where_clause db.tenants), db))
  require found not_found

abbrev pub has_username : Env → Text → Tenant → Bool
has_username env username t = text_eq (env.lower t.username) (env.lower username)

abbrev pub has_email : Env → Text → Tenant → Bool
has_email env email t = text_eq (env.lower t.email) (env.lower email)

unfoldable pub tenant_by_username : Env → Text → Action Tenant
unfolding tenant_by_query
tenant_by_username env username = tenant_by_query env (has_username env username)

unfoldable pub tenant_by_email : Env → Text → Action Tenant
unfolding tenant_by_query
tenant_by_email env email = tenant_by_query env (has_email env email)

unfoldable pub tenant_by_id : Env → Uuid → Action Tenant
unfolding tenant_by_query
tenant_by_id env id = tenant_by_query env (λ t. t.id == id)

-- Exec ignores how many rows an UPDATE affects.
abbrev pub set_tenant : Env → Uuid → (Tenant → Tenant) → Action (Unit {0})
set_tenant env id f =
    statement env
      λ k db. (ok tt, record db { tenants = update_where (λ t. t.id == id) f db.tenants })

unfoldable pub update_profile : Env → Uuid → Text → Text → Text → Action (Unit {0})
update_profile env id full_name store_name phone =
    set_tenant env id
      (λ t. record t { full_name = full_name; store_name = store_name; phone = phone })

unfoldable pub update_password : Env → Uuid → Text → Action (Unit {0})
update_password env id hash = set_tenant env id (λ t. record t { password_hash = hash })

unfoldable pub mark_email_verified : Env → Uuid → Action (Unit {0})
mark_email_verified env id = set_tenant env id (λ t. record t { email_verified = true })

-- ---- refresh tokens ----

abbrev pub is_unset : Option Time → Bool
is_unset none = true
is_unset (some t) = false

-- token_hash UNIQUE, tenant_id REFERENCES tenants
unfoldable pub save_refresh : Env → Uuid → Text → Time → Action (Unit {0})
save_refresh env tenant hash exp = statement env λ k db.
    let r : RefreshToken = record {
      tenant_id = tenant;
      token_hash = hash;
      expires_at = exp;
      revoked_at = none;
    } in
    inserted (not (any (λ x. text_eq x.token_hash hash) db.refresh_tokens) && has_tenant db tenant)
      tt (record db { refresh_tokens = db.refresh_tokens ++ r ∷ [] }) db

-- WHERE token_hash=$1 AND revoked_at IS NULL AND expires_at > now()
abbrev pub is_live : Time → Text → RefreshToken → Bool
is_live now hash r = text_eq r.token_hash hash && is_unset r.revoked_at && ltb now r.expires_at

abbrev pub revoked : Time → RefreshToken → RefreshToken
revoked now r = record r { revoked_at = some now }

-- UPDATE … RETURNING tenant_id
abbrev pub returning : Option Uuid → Db → Db → Result Uuid × Db
returning none db' db = (err not_found, db)
returning (some id) db' db = (ok id, db')

abbrev refresh_tenant : Option RefreshToken → Option Uuid
refresh_tenant none = none
refresh_tenant (some r) = some r.tenant_id

unfoldable pub rotate_refresh : Env → Text → Action Uuid
rotate_refresh env hash = statement env λ k db.
    returning (refresh_tenant (find (is_live (env.now k) hash) db.refresh_tokens))
      (record db {
        refresh_tokens =
            update_where (is_live (env.now k) hash) (revoked (env.now k)) db.refresh_tokens;
      })
      db

unfoldable pub revoke_refresh : Env → Text → Action (Unit {0})
revoke_refresh env hash = statement env λ k db. (
  ok tt,
  record db {
    refresh_tokens =
        update_where (λ r. text_eq r.token_hash hash && is_unset r.revoked_at) (revoked (env.now k))
          db.refresh_tokens;
  },
)

-- ---- single-use auth tokens ----

unfoldable pub save_auth_token : Env → Uuid → Purpose → Text → Time → Action (Unit {0})
save_auth_token env tenant purpose hash exp = statement env λ k db.
    let a : AuthToken = record {
      tenant_id = tenant;
      purpose = purpose;
      token_hash = hash;
      expires_at = exp;
      used_at = none;
    } in
    inserted (not (any (λ x. text_eq x.token_hash hash) db.auth_tokens) && has_tenant db tenant) tt
      (record db { auth_tokens = db.auth_tokens ++ a ∷ [] }) db

abbrev pub purpose_eq : Purpose → Purpose → Bool
purpose_eq verify_email verify_email = true
purpose_eq reset_password reset_password = true
purpose_eq _ _ = false

-- WHERE token_hash=$1 AND purpose=$2 AND used_at IS NULL AND expires_at > now()
abbrev pub is_usable : Time → Purpose → Text → AuthToken → Bool
is_usable now purpose hash a =
    text_eq a.token_hash hash
    && purpose_eq a.purpose purpose
    && is_unset a.used_at
    && ltb now a.expires_at

abbrev auth_tenant : Option AuthToken → Option Uuid
auth_tenant none = none
auth_tenant (some a) = some a.tenant_id

abbrev pub used : Time → AuthToken → AuthToken
used now a = record a { used_at = some now }

unfoldable pub consume_auth_token : Env → Purpose → Text → Action Uuid
consume_auth_token env purpose hash = statement env λ k db.
    returning (auth_tenant (find (is_usable (env.now k) purpose hash) db.auth_tokens))
      (record db {
        auth_tokens =
            update_where (is_usable (env.now k) purpose hash) (used (env.now k)) db.auth_tokens;
      })
      db
