-- ===== src/Server.antt =====
-- api/internal/server/server.go: the handlers that it declares itself. Routes and middleware of the framework
-- are not modelled.
pub mod Links
use agentic_mudahurus.Shared.{
  ℕ, Bool, true, false, Option, none, some, List, [], ◌∷◌, not, if◌then◌else◌, length, Text, codes,
}
use agentic_mudahurus.Shared.Int.{ℤ, pos, negsuc}
use agentic_mudahurus.Shared.Decimal.{atoi_value}
use agentic_mudahurus.Schema.{Time}
use agentic_mudahurus.World.{Result, ok, err, Env, Action, Files, statement, try, pure, ◌>>=◌}
use agentic_mudahurus.Httpx.Errors.{forbidden, missing}
use agentic_mudahurus.Storage.{verify, open_file}

module _ (mac : Text → Text) (type_by_extension : Text → Option Text) where
  -- The time is not past a negative expiry only before 1970.
  abbrev pub verify_at : Time → Text → Text → ℤ → Bool
  verify_at now key sig (pos exp) = verify mac now key sig exp
  verify_at now key sig (negsuc exp) = false

  opened : Option (List ℕ × Text) → Result (List ℕ × Text)
  opened none = err (missing (codes "file not found"))
  opened (some file) = ok file

  -- `localFileHandler`, with the path and the query parameters `sig` and `exp`
  unfoldable pub local_file_handler : Time → (key sig exp : Text) → Files → Result (List ℕ × Text)
  unfolding opened
  local_file_handler now key sig exp fs =
      if not (verify_at now key sig (atoi_value exp))
      then err (forbidden (codes "invalid or expired signature"))
      else opened (open_file type_by_extension key fs)

count_or : Result ℕ → ℕ
count_or (ok n) = n
count_or (err e) = 0

-- GET /operator/tenants/count: an error of the query counts as none
unfoldable pub tenants_count : Env → Action ℕ
unfolding count_or
tenants_count env = do
  n ← try (statement env (λ k db. (ok (length db.tenants), db)))
  pure (count_or n)
