-- ===== src/Auth/Service/Kept.antt =====
-- What the statements on accounts keep of the tables, every request on accounts keeps.
use agentic_mudahurus.Shared.{Bool, List, [], ◌∷◌, Text, suc}
use agentic_mudahurus.Schema.{Uuid, Time, Tenant, Purpose, Db}
use agentic_mudahurus.World.{Env, World, failure, Result, ok, err, Message}
use agentic_mudahurus.World.Preserves.{
  Preserves, preserve_rules, Preserves-statement, Preserves-require, Preserves-bind, Preserves-pure,
  inserted_keeps,
}
use agentic_mudahurus.Tenancy.Identity.{tid}
use agentic_mudahurus.Auth.Password.{hash_password}
use agentic_mudahurus.Auth.Tokens.{Crypto, TokenManager, issue_access, issue_refresh, random_token}
use agentic_mudahurus.Auth.Store
use agentic_mudahurus.Auth.Service.{
  RegisterInput, send, refuse_found, fresh_hash, issue_pair, send_token, register_normal, register,
  login, refresh, logout, long_enough, change_password, forgot_found, forgot_password, reset,
  verify, update_profile, me,
}
use agentic_mudahurus.Auth.Routes.{Call, perform, run}
use agentic_mudahurus.Auth.Routes

module _ {P : Db → Type 0} (env : Env) (crypto : Crypto) where
  Preserves-tenant_by_query : (p : Tenant → Bool) → Preserves P (Store.tenant_by_query env p)
  unfolding Store.tenant_by_query
  Preserves-tenant_by_query p = search (preserve_rules, Preserves-statement)

  Preserves-by_username : (s : Text) → Preserves P (Store.tenant_by_username env s)
  unfolding Store.tenant_by_username
  Preserves-by_username s = Preserves-tenant_by_query _

  Preserves-by_email : (s : Text) → Preserves P (Store.tenant_by_email env s)
  unfolding Store.tenant_by_email
  Preserves-by_email s = Preserves-tenant_by_query _

  pub Preserves-by_id : (id : Uuid) → Preserves P (Store.tenant_by_id env id)
  unfolding Store.tenant_by_id
  Preserves-by_id id = Preserves-tenant_by_query _

  pub Preserves-fresh_hash : (password : Text) → Preserves P (fresh_hash env crypto password)
  unfolding fresh_hash
  Preserves-fresh_hash password = record {
    holds = λ w h.
        (Preserves-require {P = P} (hash_password crypto.argon w.tick password) failure).holds
          (record w { tick = suc w.tick }) h;
  }

  Preserves-send : (m : Message) → Preserves P (send m)
  unfolding send
  Preserves-send m = record { holds = λ w h. h }

  Preserves-refuse_found : (msg : Text) (r : Result Tenant) → Preserves P (refuse_found msg r)
  unfolding refuse_found
  Preserves-refuse_found msg (ok t) = search preserve_rules
  Preserves-refuse_found msg (err e) = search preserve_rules

  pub Preserves-long_enough :
      (field password : Text) → Preserves P (long_enough env crypto field password)
  unfolding long_enough
  Preserves-long_enough field password = search preserve_rules

  Preserves-random_token : Preserves P (random_token env crypto)
  unfolding random_token
  Preserves-random_token = search preserve_rules

  pub Preserves-issue_access :
      (m : TokenManager) (t : Uuid) (role username : Text)
      → Preserves P (issue_access env crypto m t role username)
  unfolding issue_access
  Preserves-issue_access m t role username = search preserve_rules

  pub Preserves-issue_refresh : (m : TokenManager) → Preserves P (issue_refresh env crypto m)
  unfolding issue_refresh
  Preserves-issue_refresh m = search (preserve_rules, Preserves-random_token)

ruleset read_rules = (
  preserve_rules, Preserves-by_username, Preserves-by_email, Preserves-by_id, Preserves-fresh_hash,
  Preserves-send, Preserves-refuse_found, Preserves-long_enough, Preserves-random_token,
  Preserves-issue_access, Preserves-issue_refresh,
)

module _ (P : Db → Type 0) (env : Env) (crypto : Crypto) (m : TokenManager)
    (on_tenants : (db : Db) (ts : List Tenant) → P db → P (record db { tenants = ts }))
    (on_save_refresh : (t : Uuid) (h : Text) (exp : Time)
      → Preserves P (Store.save_refresh env t h exp))
    (on_rotate : (h : Text) → Preserves P (Store.rotate_refresh env h))
    (on_revoke : (h : Text) → Preserves P (Store.revoke_refresh env h))
    (on_save_mailed : (t : Uuid) (q : Purpose) (h : Text) (exp : Time)
      → Preserves P (Store.save_auth_token env t q h exp))
    (on_consume : (q : Purpose) (h : Text) → Preserves P (Store.consume_auth_token env q h)) where
  create_tenant-kept : (t : Tenant) → Preserves P (Store.create_tenant env t)
  unfolding Store.create_tenant
  create_tenant-kept t =
      Preserves-statement env _ λ k db h. inserted_keeps P _ _ _ db h λ fits. on_tenants db _ h

  update_profile-kept : (id : Uuid) (a b c : Text) → Preserves P (Store.update_profile env id a b c)
  unfolding Store.update_profile
  update_profile-kept id a b c = Preserves-statement env _ λ k db h. on_tenants db _ h

  update_password-kept : (id : Uuid) (hash : Text) → Preserves P (Store.update_password env id hash)
  unfolding Store.update_password
  update_password-kept id hash = Preserves-statement env _ λ k db h. on_tenants db _ h

  mark_email_verified-kept : (id : Uuid) → Preserves P (Store.mark_email_verified env id)
  unfolding Store.mark_email_verified
  mark_email_verified-kept id = Preserves-statement env _ λ k db h. on_tenants db _ h

  pub issue_pair-kept : (t : Tenant) → Preserves P (issue_pair env crypto m t)
  unfolding issue_pair
  issue_pair-kept t =
      search (preserve_rules, Preserves-issue_access, Preserves-issue_refresh, on_save_refresh)

  send_token-kept :
      (t : Tenant) (q : Purpose) (ttl : Time) (subject : Text)
      → Preserves P (send_token env crypto t q ttl subject)
  unfolding send_token
  send_token-kept t q ttl subject =
      search (preserve_rules, Preserves-random_token, Preserves-send, on_save_mailed)

  register-kept : (input : RegisterInput) → Preserves P (register env crypto input)
  unfolding register register_normal
  register-kept input = search (read_rules, create_tenant-kept, send_token-kept) depth 14

  login-kept : (a b : Text) → Preserves P (login env crypto m a b)
  unfolding login
  login-kept a b = search (read_rules, issue_pair-kept) depth 8

  refresh-kept : (token : Text) → Preserves P (refresh env crypto m token)
  unfolding refresh
  refresh-kept token = search (read_rules, issue_pair-kept, on_rotate) depth 8

  logout-kept : (token : Text) → Preserves P (logout env crypto token)
  unfolding logout
  logout-kept token = on_revoke _

  change_password-kept : (t : Uuid) (a b : Text) → Preserves P (change_password env crypto t a b)
  unfolding change_password
  change_password-kept t a b = search (read_rules, update_password-kept) depth 10

  forgot_found-kept : (r : Result Tenant) → Preserves P (forgot_found env crypto r)
  unfolding forgot_found
  forgot_found-kept (err e) = search preserve_rules
  forgot_found-kept (ok t) = send_token-kept t _ _ _

  forgot-kept : (email : Text) → Preserves P (forgot_password env crypto email)
  unfolding forgot_password
  forgot-kept email = search (read_rules, forgot_found-kept)

  reset-kept : (token password : Text) → Preserves P (reset env crypto token password)
  unfolding reset
  reset-kept token password = search (read_rules, on_consume, update_password-kept) depth 10

  verify-kept : (token : Text) → Preserves P (verify env crypto token)
  unfolding verify
  verify-kept token = search (read_rules, on_consume, mark_email_verified-kept)

  profile-kept : (t : Uuid) (a b c : Text) → Preserves P (update_profile env crypto t a b c)
  unfolding update_profile
  profile-kept t a b c = search (read_rules, update_profile-kept)

  me-kept : (t : Uuid) → Preserves P (me env crypto t)
  unfolding me
  me-kept t = search read_rules

  perform-kept : (call : Call) → Preserves P (perform env crypto m call)
  unfolding perform
  perform-kept (Routes.register input) =
      Preserves-bind _ _ (register-kept input) (λ _. Preserves-pure tt)
  perform-kept (Routes.login username email password) =
      Preserves-bind _ _ (login-kept _ password) (λ _. Preserves-pure tt)
  perform-kept (Routes.refresh token) =
      Preserves-bind _ _ (refresh-kept token) (λ _. Preserves-pure tt)
  perform-kept (Routes.logout token) = logout-kept token
  perform-kept (Routes.forgot email) = forgot-kept email
  perform-kept (Routes.reset token password) = reset-kept token password
  perform-kept (Routes.verify token) = verify-kept token
  perform-kept (Routes.me ctx) = Preserves-bind _ _ (me-kept (tid ctx)) (λ _. Preserves-pure tt)
  perform-kept (Routes.update_profile ctx a b c) =
      Preserves-bind _ _ (profile-kept (tid ctx) a b c) (λ _. Preserves-pure tt)
  perform-kept (Routes.change_password ctx a b) = change_password-kept (tid ctx) a b

  pub run-kept : (calls : List Call) (w : World) → P w.db → P (run env crypto m calls w).db
  unfolding run
  run-kept [] w h = h
  run-kept (call ∷ calls) w h =
      run-kept calls (perform env crypto m call w).1 ((perform-kept call).holds w h)
