-- ===== src/Auth/Service/Reuse/Mailed.antt =====
-- What the statements on mailed tokens do to a token that was used.
use agentic_mudahurus.Shared.{
  ◌≡◌, ◌≢◌, refl, Bool, some, arith, find, update_where, Text, text_eq, none_or_some, ◌&&◌, inl,
  inr,
}
use agentic_mudahurus.Schema.{Uuid, Time, Purpose, AuthToken, Db}
use agentic_mudahurus.World.{Env, World, ok, statement}
use agentic_mudahurus.World.Preserves.{Preserves, Preserves-statement, inserted_keeps}
use agentic_mudahurus.Auth.Store
use agentic_mudahurus.Auth.Store.{is_unset, is_live, is_usable, used, purpose_eq, returning}
use agentic_mudahurus.Auth.Service.Reuse.Spent.{
  Spent, Once, find-any, spend, Spent-update, Spent-insert, fresh-other, returning_keeps,
}

-- A mailed token with this hash is stored, and every one that has it is used.
abbrev pub has_mailed_hash : Text → AuthToken → Bool
has_mailed_hash hash a = text_eq a.token_hash hash

abbrev pub Used : Text → Db → Type 0
Used hash db = Spent (has_mailed_hash hash) (λ a. is_unset a.used_at) db.auth_tokens

consume-found :
    (env : Env) (purpose : Purpose) (hash : Text) (w : World) (t : Uuid)
    → (Store.consume_auth_token env purpose hash w).0 ≡ ok t
    → (a : AuthToken) × (find (is_usable (env.now w.tick) purpose hash) w.db.auth_tokens ≡ some a)
      × ((Store.consume_auth_token env purpose hash w).1.db.auth_tokens
          ≡ update_where
              (is_usable (env.now w.tick) purpose hash)
              (used (env.now w.tick))
              w.db.auth_tokens)
unfolding Store.consume_auth_token statement
consume-found env purpose hash w t h =
    elim (none_or_some (find (is_usable (env.now w.tick) purpose hash) w.db.auth_tokens)) [
      | inl e ↦ absurd (ground arith)
      | inr (a, e) ↦ (a, e, ground arith)
    ]

pub consume-Used :
    (env : Env) (purpose : Purpose) (hash : Text) (w : World) (t : Uuid)
    → Once (has_mailed_hash hash) w.db.auth_tokens
    → (Store.consume_auth_token env purpose hash w).0 ≡ ok t
    → Used hash (Store.consume_auth_token env purpose hash w).1.db
consume-Used env purpose hash w t once h =
    let (a, found, after) = consume-found env purpose hash w t h in
    rw after (
      spend (has_mailed_hash hash) (λ x. is_unset x.used_at)
        (is_usable (env.now w.tick) purpose hash) (used (env.now w.tick)) (λ x live. ground arith)
        (λ x. refl) (λ x. refl) w.db.auth_tokens a once found)

pub consume-refused :
    (env : Env) (purpose : Purpose) (hash : Text) (w : World) (t : Uuid)
    → Used hash w.db
    → (Store.consume_auth_token env purpose hash w).0 ≢ ok t
consume-refused env purpose hash w t r h =
    let (x, found, _) = consume-found env purpose hash w t h in
    let gone =
      find-any (is_usable (env.now w.tick) purpose hash)
        (λ y. has_mailed_hash hash y && is_unset y.used_at) w.db.auth_tokens
        (λ y live. ground arith) r.dead in
    cc (found, gone)

module _ (hash : Text) (env : Env) where
  pub save_auth_token-Used :
      (t : Uuid) (purpose : Purpose) (h : Text) (exp : Time)
      → Preserves (Used hash) (Store.save_auth_token env t purpose h exp)
  unfolding Store.save_auth_token
  save_auth_token-Used t purpose h exp = Preserves-statement env _ λ k db r.
      inserted_keeps (Used hash) _ _ _ db r λ fits.
        Spent-insert (has_mailed_hash hash) (λ x. is_unset x.used_at) db.auth_tokens _
          (fresh-other (λ (x : AuthToken). x.token_hash) h hash db.auth_tokens
            (let pass = fits in ground arith) r.stored)
          r

  pub consume_auth_token-Used :
      (purpose : Purpose) (h : Text)
      → Preserves (Used hash) (Store.consume_auth_token env purpose h)
  unfolding Store.consume_auth_token
  consume_auth_token-Used purpose h = Preserves-statement env _ λ k db r.
      returning_keeps (Used hash) _ _ db r (
        Spent-update (has_mailed_hash hash) (λ x. is_unset x.used_at) (used (env.now k)) (λ x. refl)
          (λ x. refl) (is_usable (env.now k) purpose h) db.auth_tokens r)
