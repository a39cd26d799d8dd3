-- ===== src/Auth/Routes.antt =====
-- api/internal/auth/handler.go: the requests on accounts, behind the decoding of their bodies. The
-- identity is what the guard put into the context.
use agentic_mudahurus.Shared.{List, [], ◌∷◌, Text, is_empty, if◌then◌else◌}
use agentic_mudahurus.World.{World, Env, Action, pure, ◌>>=◌}
use agentic_mudahurus.Tenancy.Identity.{Context, tid}
use agentic_mudahurus.Auth.Tokens.{Crypto, TokenManager}
use agentic_mudahurus.Auth.Service
use agentic_mudahurus.Auth.Service.{RegisterInput}

pub data Call : Type 0 where
  register : RegisterInput → Call
  login : (username email password : Text) → Call
  refresh : Text → Call
  logout : Text → Call
  forgot : Text → Call
  reset : (token password : Text) → Call
  verify : Text → Call
  me : Context → Call
  update_profile : Context → (full_name store_name phone : Text) → Call
  change_password : Context → (old_password new_password : Text) → Call

abbrev pub done : {A : Type 0} → Action A → Action (Unit {0})
done m = m >>= λ _. pure tt

module _ (env : Env) (crypto : Crypto) (m : TokenManager) where
  unfoldable pub perform : Call → Action (Unit {0})
  perform (register input) = done (Service.register env crypto input)
  perform (login username email password) =
      done (Service.login env crypto m (if is_empty username then email else username) password)
  perform (refresh token) = done (Service.refresh env crypto m token)
  perform (logout token) = Service.logout env crypto token
  perform (forgot email) = Service.forgot_password env crypto email
  perform (reset token password) = Service.reset env crypto token password
  perform (verify token) = Service.verify env crypto token
  perform (me ctx) = done (Service.me env crypto (tid ctx))
  perform (update_profile ctx full_name store_name phone) =
      done (Service.update_profile env crypto (tid ctx) full_name store_name phone)
  perform (change_password ctx old_password new_password) =
      Service.change_password env crypto (tid ctx) old_password new_password

  unfoldable pub run : List Call → World → World
  run [] w = w
  run (call ∷ calls) w = run calls (perform call w).1
