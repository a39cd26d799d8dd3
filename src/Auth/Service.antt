-- ===== src/Auth/Service.antt =====
-- api/internal/auth/service.go
pub mod Kept
pub mod Reuse
use agentic_mudahurus.Shared.{
  ℕ, suc, ◌+◌, ◌*◌, Bool, true, false, Option, none, some, List, [], ◌∷◌, ◌++◌, if◌then◌else◌, not,
  leb, ltb, Text, codes, trim_space, to_lower, contains, byte_len,
}
use agentic_mudahurus.Schema.{Uuid, Time, Tenant, Purpose, verify_email, reset_password}
use agentic_mudahurus.World.{
  Env, Error, not_found, failure, api, Result, ok, err, Action, World, Message, pure, raise, lift,
  require, try, map_error, time_now, ◌>>=◌, ◌>>◌,
}
use agentic_mudahurus.Httpx.Errors.{unauthorized, conflict, missing, bad_request, validation}
use agentic_mudahurus.Httpx.Validation.{new_validator, require_field, check, verdict}
use agentic_mudahurus.Auth.Password.{hash_password, verify_password}
use agentic_mudahurus.Auth.Tokens.{
  Crypto, TokenManager, hash_token, issue_access, issue_refresh, random_token,
}
use agentic_mudahurus.Auth.Store

pub record TokenPair : Type 0 where
  pub access_token : Text
  pub refresh_token : Text
  pub expires_at : Time
  pub tenant : Tenant

pub record RegisterInput : Type 0 where
  pub username : Text
  pub email : Text
  pub password : Text
  pub full_name : Text
  pub store_name : Text
  pub phone : Text

-- LogMailer.Send
unfoldable pub send : Message → Action (Unit {0})
send m w = (ok tt, record w { mails = w.mails ++ m ∷ [] })

-- whatever the error, another in its place
abbrev pub instead : {A : Type 0} → Error → Action A → Action A
instead e m = map_error (λ _. e) m

abbrev pub invalid_credentials : Error
invalid_credentials = unauthorized (codes "invalid credentials")

abbrev pub invalid_refresh : Error
invalid_refresh = unauthorized (codes "invalid refresh token")

-- `if _, err := s.store.TenantBy…; err == nil { return …Conflict }`
unfoldable pub refuse_found : Text → Result Tenant → Action (Unit {0})
refuse_found msg (ok t) = raise (conflict msg)
refuse_found msg (err e) = pure tt

-- an error is the format's, `none`; `if err != nil || !ok`
abbrev pub passes : Option Bool → Bool
passes none = false
passes (some b) = b

module _ (env : Env) (crypto : Crypto) where
  abbrev pub normal : Text → Text
  normal s = to_lower env.lower_rune (trim_space s)

  -- HashPassword draws its salt from the random source
  unfoldable pub fresh_hash : Text → Action Text
  fresh_hash password w =
      require (hash_password crypto.argon w.tick password) failure (record w { tick = suc w.tick })

  unfoldable pub issue_pair : TokenManager → Tenant → Action TokenPair
  issue_pair m t = do
    (access, exp) ← issue_access env crypto m t.id t.role t.username
    (refresh, hash, refresh_exp) ← issue_refresh env crypto m
    Store.save_refresh env t.id hash refresh_exp
    pure (record { access_token = access; refresh_token = refresh; expires_at = exp; tenant = t })

  abbrev pub path : Purpose → Text
  path verify_email = codes "/verify-email"
  path reset_password = codes "/reset"

  unfoldable pub send_token : Tenant → Purpose → Time → Text → Action (Unit {0})
  unfolding send
  send_token t purpose ttl subject = do
    raw ← random_token env crypto
    now ← time_now env
    Store.save_auth_token env t.id purpose (hash_token env crypto raw) (now + ttl)
    send (record {
      to = t.email;
      subject = subject;
      body = codes "Use this link: " ++ path purpose ++ codes "?token=" ++ raw;
    })

  abbrev pub normalised : RegisterInput → RegisterInput
  normalised input = record input { username = normal input.username; email = normal input.email }

  unfoldable pub validate_register : RegisterInput → Result (Unit {0})
  validate_register input = verdict (
      check (contains input.email (codes "@")) (codes "email") (codes "must be a valid email") (
        check (leb 8 (byte_len input.password)) (codes "password")
          (codes "must be at least 8 characters")
          (require_field (codes "password") input.password (
            require_field (codes "email") input.email
              (require_field (codes "username") input.username new_validator)))))

  abbrev pub new_tenant : RegisterInput → Text → Tenant
  new_tenant input hash = record {
    id = 0;
    username = input.username;
    email = input.email;
    password_hash = hash;
    role = codes "seller";
    full_name = input.full_name;
    store_name = input.store_name;
    phone = input.phone;
    email_verified = false;
    created_at = 0;
  }

  -- the rest of `Register`, once the input is normalised
  unfoldable pub register_normal : RegisterInput → Action Tenant
  unfolding refuse_found validate_register fresh_hash send_token
  register_normal input = do
    lift (validate_register input)
    by_name ← try (Store.tenant_by_username env input.username)
    refuse_found (codes "username already taken") by_name
    by_email ← try (Store.tenant_by_email env input.email)
    refuse_found (codes "email already registered") by_email
    hash ← fresh_hash input.password
    t ← Store.create_tenant env (new_tenant input hash)
    send_token t verify_email (24 * 3600) (codes "Verify your MUDAHURUS account")
    pure t

  unfoldable pub register : RegisterInput → Action Tenant
  unfolding register_normal
  register input = register_normal (normalised input)

  -- by e-mail if it has an @, else by username
  abbrev pub tenant_for : Text → Action Tenant
  tenant_for login =
      if contains login (codes "@")
      then Store.tenant_by_email env login
      else Store.tenant_by_username env login

  unfoldable pub login : TokenManager → Text → Text → Action TokenPair
  unfolding issue_pair
  login m username_or_email password = do
    t ← instead invalid_credentials (tenant_for (normal username_or_email))
    (if passes (verify_password crypto.argon password t.password_hash)
        then issue_pair m t
        else raise invalid_credentials)

  unfoldable pub refresh : TokenManager → Text → Action TokenPair
  unfolding issue_pair
  refresh m token = do
    tenant ← instead invalid_refresh (Store.rotate_refresh env (hash_token env crypto token))
    t ← instead invalid_refresh (Store.tenant_by_id env tenant)
    issue_pair m t

  unfoldable pub logout : Text → Action (Unit {0})
  logout token = Store.revoke_refresh env (hash_token env crypto token)

  -- `if len(pw) < 8 { return httpx.Validation(…) }`
  unfoldable pub long_enough : Text → Text → Action (Unit {0})
  long_enough field password =
      if ltb (byte_len password) 8
      then raise (validation ((field, codes "must be at least 8 characters") ∷ []))
      else pure tt

  unfoldable pub change_password : Uuid → Text → Text → Action (Unit {0})
  unfolding long_enough fresh_hash
  change_password tenant old_password new_password = do
    long_enough (codes "new_password") new_password
    t ← instead (missing (codes "account not found")) (Store.tenant_by_id env tenant)
    (if passes (verify_password crypto.argon old_password t.password_hash)
        then pure tt
        else raise (unauthorized (codes "current password is incorrect")))
    hash ← fresh_hash new_password
    Store.update_password env tenant hash

  -- the rest of `ForgotPassword`: an unknown address is not told
  unfoldable pub forgot_found : Result Tenant → Action (Unit {0})
  unfolding send_token
  forgot_found (err e) = pure tt
  forgot_found (ok t) = send_token t reset_password 3600 (codes "Reset your MUDAHURUS password")

  unfoldable pub forgot_password : Text → Action (Unit {0})
  unfolding forgot_found
  forgot_password email = do
    found ← try (Store.tenant_by_email env (normal email))
    forgot_found found

  unfoldable pub reset : Text → Text → Action (Unit {0})
  unfolding long_enough fresh_hash
  reset token new_password = do
    long_enough (codes "password") new_password
    tenant ←
        instead (bad_request (codes "invalid or expired reset token"))
          (Store.consume_auth_token env reset_password (hash_token env crypto token))
    hash ← fresh_hash new_password
    Store.update_password env tenant hash

  unfoldable pub verify : Text → Action (Unit {0})
  verify token = do
    tenant ←
        instead (bad_request (codes "invalid or expired verification token"))
          (Store.consume_auth_token env verify_email (hash_token env crypto token))
    Store.mark_email_verified env tenant

  unfoldable pub update_profile : Uuid → Text → Text → Text → Action Tenant
  update_profile tenant full_name store_name phone = do
    Store.update_profile env tenant full_name store_name phone
    Store.tenant_by_id env tenant

  -- `if errors.Is(err, ErrNotFound) { … }`
  abbrev pub account_missing : Error → Error
  account_missing not_found = missing (codes "account not found")
  account_missing failure = failure
  account_missing (api e) = api e

  unfoldable pub me : Uuid → Action Tenant
  me tenant = map_error account_missing (Store.tenant_by_id env tenant)
