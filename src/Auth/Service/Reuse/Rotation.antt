-- ===== src/Auth/Service/Reuse/Rotation.antt =====
-- A refresh token works once.
use agentic_mudahurus.Shared.{◌≡◌, List, Text}
use agentic_mudahurus.Schema.{Uuid, Time, Tenant, Purpose}
use agentic_mudahurus.World.{Env, World, ok, err, map_error}
use agentic_mudahurus.World.Preserves.{
  Preserves, preserve_rules, Preserves-statement, bind_then, inserted_keeps,
}
use agentic_mudahurus.World.Inversion.{bind-ok, bind-err, map_error-ok, map_error-refused}
use agentic_mudahurus.Auth.Tokens.{Crypto, TokenManager, hash_token}
use agentic_mudahurus.Auth.Store
use agentic_mudahurus.Auth.Service.{TokenPair, instead, invalid_refresh, issue_pair, refresh}
use agentic_mudahurus.Auth.Service.Kept.{Preserves-by_id, issue_pair-kept, run-kept}
use agentic_mudahurus.Auth.Routes.{Call, run}
use agentic_mudahurus.Auth.Service.Reuse.Spent.{Once, returning_keeps}
use agentic_mudahurus.Auth.Service.Reuse.Refresh.{
  has_hash, Revoked, rotate-Revoked, rotate-refused, save_refresh-Revoked, rotate_refresh-Revoked,
  revoke_refresh-Revoked,
}

module _ (env : Env) (crypto : Crypto) (m : TokenManager) (hash : Text) where
  save_auth_token-Revoked :
      (t : Uuid) (q : Purpose) (h : Text) (exp : Time)
      → Preserves (Revoked hash) (Store.save_auth_token env t q h exp)
  unfolding Store.save_auth_token
  save_auth_token-Revoked t q h exp =
      Preserves-statement env _ λ k db r. inserted_keeps (Revoked hash) _ _ _ db r λ fits. r

  consume_auth_token-Revoked :
      (q : Purpose) (h : Text) → Preserves (Revoked hash) (Store.consume_auth_token env q h)
  unfolding Store.consume_auth_token
  consume_auth_token-Revoked q h =
      Preserves-statement env _ λ k db r. returning_keeps (Revoked hash) _ _ db r r

  run-Revoked :
      (calls : List Call) (w : World)
      → Revoked hash w.db
      → Revoked hash (run env crypto m calls w).db
  run-Revoked =
      run-kept (Revoked hash) env crypto m (λ db ts r. r) (save_refresh-Revoked hash env)
        (rotate_refresh-Revoked hash env) (revoke_refresh-Revoked hash env) save_auth_token-Revoked
        consume_auth_token-Revoked

  issue_pair-Revoked : (t : Tenant) → Preserves (Revoked hash) (issue_pair env crypto m t)
  issue_pair-Revoked =
      issue_pair-kept (Revoked hash) env crypto m (λ db ts r. r) (save_refresh-Revoked hash env)
        (rotate_refresh-Revoked hash env) (revoke_refresh-Revoked hash env) save_auth_token-Revoked
        consume_auth_token-Revoked

refresh-Revoked :
    (env : Env) (crypto : Crypto) (m : TokenManager) (token : Text) (w : World) (pair : TokenPair)
    → Once (has_hash (hash_token env crypto token)) w.db.refresh_tokens
    → (refresh env crypto m token w).0 ≡ ok pair
    → Revoked (hash_token env crypto token) (refresh env crypto m token w).1.db
unfolding refresh map_error
refresh-Revoked env crypto m token w pair once h =
    let (t, rotated, _) =
      bind-ok (instead invalid_refresh (Store.rotate_refresh env hash)) _ w pair h in
    bind_then (Revoked hash) (instead invalid_refresh (Store.rotate_refresh env hash)) _ w
      (rotate-Revoked env hash w t once
        (map_error-ok (λ _. invalid_refresh) (Store.rotate_refresh env hash) w t rotated))
      (λ id. search (preserve_rules, Preserves-by_id, issue_pair-Revoked env crypto m hash))
  where
    hash : Text
    hash = hash_token env crypto token

refresh-refused :
    (env : Env) (crypto : Crypto) (m : TokenManager) (token : Text) (w : World)
    → Revoked (hash_token env crypto token) w.db
    → (refresh env crypto m token w).0 ≡ err invalid_refresh
unfolding refresh
refresh-refused env crypto m token w r =
    bind-err (instead invalid_refresh (Store.rotate_refresh env (hash_token env crypto token))) _ w
      _
      (map_error-refused invalid_refresh (Store.rotate_refresh env (hash_token env crypto token)) w
        (λ t. rotate-refused env (hash_token env crypto token) w t r))

-- A refresh token works once. In a table whose hashes are unique, if a refresh succeeds, then after it,
-- whatever requests on accounts follow, a refresh with the same token fails as invalid.
pub refresh_single_use :
    (env : Env) (crypto : Crypto) (m : TokenManager) (token : Text) (w : World) (pair : TokenPair)
    (calls : List Call)
    → Once (has_hash (hash_token env crypto token)) w.db.refresh_tokens
    → (refresh env crypto m token w).0 ≡ ok pair
    → (refresh env crypto m token (run env crypto m calls (refresh env crypto m token w).1)).0
      ≡ err invalid_refresh
refresh_single_use env crypto m token w pair calls once h =
    refresh-refused env crypto m token (run env crypto m calls (refresh env crypto m token w).1) (
      run-Revoked env crypto m (hash_token env crypto token) calls _
        (refresh-Revoked env crypto m token w pair once h))
