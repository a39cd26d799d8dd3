-- ===== src/Tenancy/Identity.antt =====
-- api/internal/tenancy/tenancy.go: the identity that a request's context carries, if any.
use agentic_mudahurus.Shared.{Option, none, some, ◌==◌, if◌then◌else◌, Text}
use agentic_mudahurus.Schema.{Uuid}

pub record Identity : Type 0 where
  pub tenant_id : Uuid
  pub role : Text
  pub username : Text

-- A context is the identity that `With` put in last.
abbrev pub Context : Type 0
Context = Option Identity

unfoldable pub with_identity : Context → Identity → Context
with_identity ctx id = some id

-- `From`: none is ErrNoTenant; uuid.Nil is no tenant
unfoldable pub from : Context → Option Identity
from none = none
from (some id) = if id.tenant_id == 0 then none else some id

tenant_of : Option Identity → Option Uuid
tenant_of none = none
tenant_of (some id) = some id.tenant_id

unfoldable pub must_tenant : Context → Option Uuid
unfolding from tenant_of
must_tenant ctx = tenant_of (from ctx)

id_or_nil : Option Identity → Uuid
id_or_nil none = 0
id_or_nil (some id) = id.tenant_id

-- the handlers' `tid`: `id, _ := tenancy.From(ctx); return id.TenantID`
unfoldable pub tid : Context → Uuid
unfolding from id_or_nil
tid ctx = id_or_nil (from ctx)
