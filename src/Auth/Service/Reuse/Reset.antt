-- ===== src/Auth/Service/Reuse/Reset.antt =====
-- A mailed token works once.
use agentic_mudahurus.Shared.{◌≡◌, ◌≢◌, refl, sym, subst, ap, List, Text, codes}
use agentic_mudahurus.Schema.{Uuid, Time, verify_email, reset_password, Db}
use agentic_mudahurus.World.{Env, World, Error, ok, map_error, ◌>>=◌}
use agentic_mudahurus.World.Preserves.{
  Preserves, Preserves-statement, Preserves-bind, inserted_keeps,
}
use agentic_mudahurus.World.Inversion.{bind-ok, chain-ok, map_error-ok}
use agentic_mudahurus.Httpx.Errors.{bad_request}
use agentic_mudahurus.Auth.Tokens.{Crypto, TokenManager, hash_token}
use agentic_mudahurus.Auth.Store
use agentic_mudahurus.Auth.Service.{instead, fresh_hash, long_enough, reset, verify}
use agentic_mudahurus.Auth.Service.Kept.{Preserves-long_enough, Preserves-fresh_hash, run-kept}
use agentic_mudahurus.Auth.Routes.{Call, run}
use agentic_mudahurus.Auth.Service.Reuse.Spent.{Once, returning_keeps}
use agentic_mudahurus.Auth.Service.Reuse.Mailed.{
  has_mailed_hash, Used, consume-Used, consume-refused, save_auth_token-Used,
  consume_auth_token-Used,
}

module _ (env : Env) (crypto : Crypto) (m : TokenManager) (hash : Text) where
  save_refresh-Used :
      (t : Uuid) (h : Text) (exp : Time) → Preserves (Used hash) (Store.save_refresh env t h exp)
  unfolding Store.save_refresh
  save_refresh-Used t h exp =
      Preserves-statement env _ λ k db r. inserted_keeps (Used hash) _ _ _ db r λ fits. r

  rotate_refresh-Used : (h : Text) → Preserves (Used hash) (Store.rotate_refresh env h)
  unfolding Store.rotate_refresh
  rotate_refresh-Used h = Preserves-statement env _ λ k db r. returning_keeps (Used hash) _ _ db r r

  revoke_refresh-Used : (h : Text) → Preserves (Used hash) (Store.revoke_refresh env h)
  unfolding Store.revoke_refresh
  revoke_refresh-Used h = Preserves-statement env _ λ k db r. r

  run-Used :
      (calls : List Call) (w : World) → Used hash w.db → Used hash (run env crypto m calls w).db
  run-Used =
      run-kept (Used hash) env crypto m (λ db ts r. r) save_refresh-Used rotate_refresh-Used
        revoke_refresh-Used (save_auth_token-Used hash env) (consume_auth_token-Used hash env)

update_password-Used :
    (env : Env) (hash : Text) (t : Uuid) (h : Text)
    → Preserves (Used hash) (Store.update_password env t h)
unfolding Store.update_password
update_password-Used env hash t h = Preserves-statement env _ λ k db r. r

abbrev invalid_reset : Error
invalid_reset = bad_request (codes "invalid or expired reset token")

reset-Used :
    (env : Env) (crypto : Crypto) (token password : Text) (w : World)
    → Once (has_mailed_hash (hash_token env crypto token)) w.db.auth_tokens
    → (reset env crypto token password w).0 ≡ ok tt
    → Used (hash_token env crypto token) (reset env crypto token password w).1.db
unfolding reset map_error
reset-Used env crypto token password w once h =
    let (_, long, e) = bind-ok (long_enough env crypto (codes "password") password) _ w tt h in
    let w1 = (long_enough env crypto (codes "password") password w).1 in
    let (t, consumed, e2) =
      chain-ok (instead invalid_reset (Store.consume_auth_token env reset_password hash)) _ w1 tt e
        h in
    let w2 = (Store.consume_auth_token env reset_password hash w1).1 in
    let same : w1.db ≡ w.db =
      (Preserves-long_enough {P = λ db. db ≡ w.db} env crypto (codes "password") password).holds w
        refl in
    let spent =
      consume-Used env reset_password hash w1 t
        (subst (λ (db : Db). Once (has_mailed_hash hash) db.auth_tokens) (sym same) once)
        (map_error-ok (λ _. invalid_reset) (Store.consume_auth_token env reset_password hash) w1 t
          consumed) in
    let rest : Preserves (Used hash)
        (fresh_hash env crypto password >>= λ h. Store.update_password env t h) =
      Preserves-bind _ _ (Preserves-fresh_hash env crypto password)
        (λ h. update_password-Used env hash t h) in
    subst (Used hash) (sym (ap (λ s. s.1.db) e2)) (rest.holds w2 spent)
  where
    hash : Text
    hash = hash_token env crypto token

reset-refused :
    (env : Env) (crypto : Crypto) (token password : Text) (w : World)
    → Used (hash_token env crypto token) w.db
    → (reset env crypto token password w).0 ≢ ok tt
unfolding reset
reset-refused env crypto token password w r h =
    let hash = hash_token env crypto token in
    let (_, long, e) = bind-ok (long_enough env crypto (codes "password") password) _ w tt h in
    let w1 = (long_enough env crypto (codes "password") password w).1 in
    let (t, consumed, _) =
      chain-ok (instead invalid_reset (Store.consume_auth_token env reset_password hash)) _ w1 tt e
        h in
    let same : w1.db ≡ w.db =
      (Preserves-long_enough {P = λ db. db ≡ w.db} env crypto (codes "password") password).holds w
        refl in
    consume-refused env reset_password hash w1 t (subst (Used hash) (sym same) r) (
      map_error-ok (λ _. invalid_reset) (Store.consume_auth_token env reset_password hash) w1 t
        consumed)

abbrev invalid_verification : Error
invalid_verification = bad_request (codes "invalid or expired verification token")

verify-refused :
    (env : Env) (crypto : Crypto) (token : Text) (w : World)
    → Used (hash_token env crypto token) w.db
    → (verify env crypto token w).0 ≢ ok tt
unfolding verify
verify-refused env crypto token w r h =
    let hash = hash_token env crypto token in
    let (t, consumed, _) =
      bind-ok (instead invalid_verification (Store.consume_auth_token env verify_email hash)) _ w tt
        h in
    consume-refused env verify_email hash w t r (
      map_error-ok (λ _. invalid_verification) (Store.consume_auth_token env verify_email hash) w t
        consumed)

-- A mailed token works once. In a table whose hashes are unique, if a password reset succeeds, then
-- after it, whatever requests on accounts follow, the same token resets no password, whichever is
-- given, and verifies no address.
pub reset_single_use :
    (env : Env) (crypto : Crypto) (m : TokenManager) (token password other : Text) (w : World)
    (calls : List Call)
    → Once (has_mailed_hash (hash_token env crypto token)) w.db.auth_tokens
    → (reset env crypto token password w).0 ≡ ok tt
    → ((reset env crypto token other
          (run env crypto m calls (reset env crypto token password w).1)).0
        ≢ ok tt)
      × ((verify env crypto token (run env crypto m calls (reset env crypto token password w).1)).0
          ≢ ok tt)
reset_single_use env crypto m token password other w calls once h =
    let later = run env crypto m calls (reset env crypto token password w).1 in
    let spent =
      run-Used env crypto m (hash_token env crypto token) calls _
        (reset-Used env crypto token password w once h) in
    (reset-refused env crypto token other later spent, verify-refused env crypto token later spent)
