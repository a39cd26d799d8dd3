-- ===== src/Auth/Service/Reuse/Refresh.antt =====
-- What the statements on refresh tokens do to a token that was used.
use agentic_mudahurus.Shared.{
  ◌≡◌, ◌≢◌, refl, Bool, some, List, arith, find, update_where, Text, text_eq, none_or_some, ◌&&◌,
  inl, inr,
}
use agentic_mudahurus.Schema.{Uuid, Time, RefreshToken, Db}
use agentic_mudahurus.World.{Env, World, ok, statement}
use agentic_mudahurus.World.Preserves.{Preserves, Preserves-statement, inserted_keeps}
use agentic_mudahurus.Auth.Store
use agentic_mudahurus.Auth.Store.{is_unset, is_live, is_usable, revoked, purpose_eq, returning}
use agentic_mudahurus.Auth.Service.Reuse.Spent.{
  Spent, Once, find-any, spend, Spent-update, Spent-insert, fresh-other, returning_keeps,
}

-- A refresh token with this hash is stored, and every one that has it is revoked.
abbrev pub has_hash : Text → RefreshToken → Bool
has_hash hash r = text_eq r.token_hash hash

abbrev pub Revoked : Text → Db → Type 0
Revoked hash db = Spent (has_hash hash) (λ r. is_unset r.revoked_at) db.refresh_tokens

rotate-found :
    (env : Env) (hash : Text) (w : World) (t : Uuid)
    → (Store.rotate_refresh env hash w).0 ≡ ok t
    → (r : RefreshToken) × (find (is_live (env.now w.tick) hash) w.db.refresh_tokens ≡ some r)
      × ((Store.rotate_refresh env hash w).1.db.refresh_tokens
          ≡ update_where
              (is_live (env.now w.tick) hash)
              (revoked (env.now w.tick))
              w.db.refresh_tokens)
unfolding Store.rotate_refresh statement
rotate-found env hash w t h =
    elim (none_or_some (find (is_live (env.now w.tick) hash) w.db.refresh_tokens)) [
      | inl e ↦ absurd (ground arith)
      | inr (r, e) ↦ (r, e, ground arith)
    ]

pub rotate-Revoked :
    (env : Env) (hash : Text) (w : World) (t : Uuid)
    → Once (has_hash hash) w.db.refresh_tokens
    → (Store.rotate_refresh env hash w).0 ≡ ok t
    → Revoked hash (Store.rotate_refresh env hash w).1.db
rotate-Revoked env hash w t once h =
    let (r, found, after) = rotate-found env hash w t h in
    rw after (
      spend (has_hash hash) (λ x. is_unset x.revoked_at) (is_live (env.now w.tick) hash)
        (revoked (env.now w.tick)) (λ x live. ground arith) (λ x. refl) (λ x. refl)
        w.db.refresh_tokens r once found)

pub rotate-refused :
    (env : Env) (hash : Text) (w : World) (t : Uuid)
    → Revoked hash w.db
    → (Store.rotate_refresh env hash w).0 ≢ ok t
rotate-refused env hash w t r h =
    let (x, found, _) = rotate-found env hash w t h in
    let gone =
      find-any (is_live (env.now w.tick) hash) (λ y. has_hash hash y && is_unset y.revoked_at)
        w.db.refresh_tokens (λ y live. ground arith) r.dead in
    cc (found, gone)

module _ (hash : Text) (env : Env) where
  pub save_refresh-Revoked :
      (t : Uuid) (h : Text) (exp : Time) → Preserves (Revoked hash) (Store.save_refresh env t h exp)
  unfolding Store.save_refresh
  save_refresh-Revoked t h exp = Preserves-statement env _ λ k db r.
      inserted_keeps (Revoked hash) _ _ _ db r λ fits.
        Spent-insert (has_hash hash) (λ x. is_unset x.revoked_at) db.refresh_tokens _
          (fresh-other (λ (x : RefreshToken). x.token_hash) h hash db.refresh_tokens
            (let pass = fits in ground arith) r.stored)
          r

  revoking-Revoked :
      (now : Time) (p : RefreshToken → Bool) (rs : List RefreshToken)
      → Spent (has_hash hash) (λ r. is_unset r.revoked_at) rs
      → Spent (has_hash hash) (λ r. is_unset r.revoked_at) (update_where p (revoked now) rs)
  revoking-Revoked now p rs s =
      Spent-update (has_hash hash) (λ r. is_unset r.revoked_at) (revoked now) (λ x. refl)
        (λ x. refl) p rs s

  pub rotate_refresh-Revoked : (h : Text) → Preserves (Revoked hash) (Store.rotate_refresh env h)
  unfolding Store.rotate_refresh
  rotate_refresh-Revoked h = Preserves-statement env _ λ k db r.
      returning_keeps (Revoked hash) _ _ db r
        (revoking-Revoked (env.now k) (is_live (env.now k) h) db.refresh_tokens r)

  pub revoke_refresh-Revoked : (h : Text) → Preserves (Revoked hash) (Store.revoke_refresh env h)
  unfolding Store.revoke_refresh
  revoke_refresh-Revoked h =
      Preserves-statement env _ λ k db r. revoking-Revoked (env.now k) _ db.refresh_tokens r
