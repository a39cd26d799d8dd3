-- ===== src/Auth/Tokens/Identified.antt =====
-- Which identity a bearer token gives a request, and whom a role lets pass.
use agentic_mudahurus.Shared.{
  ◌≡◌, ◌↔◌, refl, subst, ◌∙◌, ap, inl, inr, none_or_some, Bool-cases, true, some, ◌++◌, ltb, Text,
  codes, text_eq, text_eq_sound, text_eq_refl, has_prefix, suc, ◌+◌,
}
use agentic_mudahurus.Schema.{Uuid, Time}
use agentic_mudahurus.World.{Env, World, ok, time_now, ◌>>=◌}
use agentic_mudahurus.Tenancy.Identity.{Identity, Context, with_identity, from}
use agentic_mudahurus.Auth.Tokens.{
  Claims, Crypto, TokenManager, access_claims, issue_access, parse_access, authenticated,
  role_verdict, require_role,
}

-- What the code relies on from the JWT library and from google/uuid: a token that was signed parses
-- under the same secret until it expires, and a printed UUID parses.
pub record IsSound (env : Env) (crypto : Crypto) : Type 0 where
  pub parses :
      (secret : Text) (claims : Claims) (now : Time) (s : Text)
      → crypto.sign secret claims ≡ some s
      → ltb now claims.expires_at ≡ true
      → crypto.parse secret now s ≡ some claims
  pub uuid : (id : Uuid) → env.parse_uuid (env.uuid_string id) ≡ some id

issue_access-ok :
    (env : Env) (crypto : Crypto) (m : TokenManager) (t : Uuid) (role username s : Text)
    (exp : Time) (w : World)
    → (issue_access env crypto m t role username w).0 ≡ ok (s, exp)
    → (now : Time) × (crypto.sign m.access_secret (access_claims env crypto t role username exp now)
        ≡ some s)
unfolding issue_access ◌>>=◌ time_now
issue_access-ok env crypto m t role username s exp w h =
    elim (none_or_some (crypto.sign m.access_secret (claims start))) [
      | inl e ↦ absurd (cc (rw e at h))
      | inr (signed, e) ↦
          let pair : (◌≡◌ {A = Text × Time} (signed, start) (s, exp)) = cc (rw e at h) in
          let text : signed ≡ s = ap (λ (p : Text × Time). p.0) pair in
          let date : start ≡ exp = ap (λ (p : Text × Time). p.1) pair in
          (
            env.now (suc w.tick),
            subst (λ d. crypto.sign m.access_secret (claims d) ≡ some s) date (e ∙ ap some text),
          )
    ]
  where
    start : Time
    start = env.now w.tick + m.access_ttl

    claims : Time → Claims
    claims d = access_claims env crypto t role username d (env.now (suc w.tick))

bearer-prefix : (s : Text) → has_prefix (codes "Bearer " ++ s) (codes "Bearer ") ≡ true
unfolding has_prefix
bearer-prefix s = refl

-- The access token that was issued to a tenant gives each request that bears it, until the token
-- expires, the identity of that tenant with its role and username, whatever the context held.
pub issued_token_identifies :
    (env : Env) (crypto : Crypto) (m : TokenManager)
    → IsSound env crypto
    → (t : Uuid) (role username s : Text) (exp : Time) (w v : World) (ctx : Context)
    → (issue_access env crypto m t role username w).0 ≡ ok (s, exp)
    → ltb (env.now v.tick) exp ≡ true
    → (authenticated env crypto m (codes "Bearer " ++ s) ctx v).0
      ≡ ok (some (record { tenant_id = t; role = role; username = username }))
unfolding authenticated parse_access ◌>>=◌ time_now with_identity
issued_token_identifies env crypto m sound t role username s exp w v ctx issued live =
    let (now, signed) = issue_access-ok env crypto m t role username s exp w issued in
    let parsed =
      sound.parses m.access_secret (access_claims env crypto t role username exp now)
        (env.now v.tick) s signed live in
    rw (bearer-prefix s, parsed, sound.uuid t) refl

require_role-passes :
    (role : Text) (ctx : Context)
    → require_role role ctx ≡ ok tt
    → (id : Identity) × (from ctx ≡ some id) × (id.role ≡ role)
unfolding require_role role_verdict
require_role-passes role ctx h = elim (none_or_some (from ctx)) [
  | inl e ↦ cc (rw e at h)
  | inr (id, e) ↦ elim (Bool-cases (text_eq id.role role)) [
    | inl same ↦ (id, e, text_eq_sound id.role role same)
    | inr other ↦ cc (rw (e, other) at h)
  ]
]

-- A role's guard lets exactly the requests pass whose context has an identity with that role.
pub require_role_exact :
    (role : Text) (ctx : Context)
    → (require_role role ctx ≡ ok tt) ↔ ((id : Identity) × (from ctx ≡ some id) × (id.role ≡ role))
unfolding require_role role_verdict
require_role_exact role ctx = (
  require_role-passes role ctx,
  λ (id, e, same).
      rw e (subst (λ r. role_verdict r (some id) ≡ ok tt) same (rw (text_eq_refl id.role) refl)),
)
