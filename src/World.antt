-- ===== src/World.antt =====
-- What a handler acts on: the database behind the pool, the events emitted, the mails sent and the files
-- stored. An action returns a value or an error beside the new world, since what was written stays written.
pub mod Preserves
pub mod Inversion
pub mod Failures
pub mod Quiet
use agentic_mudahurus.Shared.{
  ℕ, suc, Bool, true, false, Option, none, some, List, [], ◌∷◌, ◌++◌, ◌&&◌, ltb, leb, take, drop,
}
use agentic_mudahurus.Shared.{Text}
use agentic_mudahurus.Shared.Int.{ℤ, pos, negsuc, pos_part, neg_part, leb_ℤ}
use agentic_mudahurus.Schema.{Uuid, Time, Db}

-- httpx/envelope.go, `APIError`; the error handler serves any other error as a 500
pub record ApiError : Type 0 where
  pub status : ℕ
  pub code : Text
  pub message : Text
  pub fields : List (Text × Text)

pub data Error : Type 0 where
  -- the sentinel `ErrNotFound` of a repository
  not_found : Error
  -- an error of the database driver, a broken constraint included
  failure : Error
  api : ApiError → Error

pub data Result (A : Type 0) : Type 0 where
  err : Error → Result A
  ok : A → Result A

-- events/events.go; the time and the source's name follow from the rest
pub data EventType : Type 0 where
  product_created order_created payment_uploaded : EventType

pub record Event : Type 0 where
  pub type : EventType
  pub tenant_id : Uuid
  pub source_id : Uuid

-- notify/notify.go
pub record Message : Type 0 where
  pub to : Text
  pub subject : Text
  pub body : Text

-- storage/local.go: the files below the root, with their bytes
abbrev pub Files : Type 0
Files = List (Text × List ℕ)

pub record World : Type 0 where
  pub db : Db
  -- how many times the program has turned to the database, the clock or the random source
  pub tick : ℕ
  pub events : List Event
  pub mails : List Message
  pub files : Files

-- What lies outside the program. The first four answer by the number of the interaction.
pub record Env : Type 0 where
  -- whether the database fails
  pub fails : ℕ → Bool
  -- what the clock says
  pub now : ℕ → Time
  -- which random UUID is drawn
  pub uuid : ℕ → Uuid
  -- Storage.SignedGetURL, with the key and the seconds to live
  pub signed_get_url : ℕ → Text → ℕ → Option Text
  -- PostgreSQL's lower(), and `value ILIKE '%' || search || '%'`
  pub lower : Text → Text
  pub ilike : Text → Text → Bool
  -- google/uuid: Parse and String
  pub parse_uuid : Text → Option Uuid
  pub uuid_string : Uuid → Text
  -- unicode.ToLower outside ASCII, and strings.EqualFold
  pub lower_rune : ℕ → ℕ
  pub equal_fold : Text → Text → Bool

abbrev pub Action : Type 0 → Type 0
Action A = World → Result A × World

module _ {A : Type 0} where
  unfoldable pub pure : A → Action A
  pure a w = (ok a, w)

  unfoldable pub raise : Error → Action A
  raise e w = (err e, w)

  -- a computation that touches nothing
  unfoldable pub lift : Result A → Action A
  lift r w = (r, w)

  unfoldable pub require : Option A → Error → Action A
  unfolding pure raise
  require none e = raise e
  require (some a) e = pure a

  -- The caller looks at the error itself: `if x, err := f(); err == nil`.
  unfoldable pub try : Action A → Action (Result A)
  try m w = let (r, w') = m w in (ok r, w')

  abbrev pub mapped : (Error → Error) → Result A → Result A
  mapped f (ok a) = ok a
  mapped f (err e) = err (f e)

  -- errors mapped on the way out: `return mapErr(err)`
  unfoldable pub map_error : (Error → Error) → Action A → Action A
  map_error f m w = let (r, w') = m w in (mapped f r, w')

  abbrev pub answer : Bool → Result A × Db → World → Result A × World
  answer true outcome w = (err failure, record w { tick = suc w.tick })
  answer false (r, db') w = (r, record w { db = db'; tick = suc w.tick })

  -- One statement on the pool: it fails and changes nothing, or it runs on the tables.
  unfoldable pub statement : Env → (ℕ → Db → Result A × Db) → Action A
  statement env f w = answer (env.fails w.tick) (f w.tick w.db) w

module _ {A B : Type 0} where
  abbrev pub continue : (A → Action B) → Result A → Action B
  continue f (ok a) w = f a w
  continue f (err e) w = (err e, w)

  infixl 5 ◌>>=◌ ◌>>◌
  -- opening this opens the actions above too
  unfoldable pub ◌>>=◌ : Action A → (A → Action B) → Action B
  unfolding pure raise lift require try map_error statement
  ◌>>=◌ m f w = let (r, w') = m w in continue f r w'

  abbrev pub ◌>>◌ : Action A → Action B → Action B
  first >> second = first >>= λ ignored. second

-- time.Now()
unfoldable pub time_now : Env → Action Time
time_now env w = (ok (env.now w.tick), record w { tick = suc w.tick })

-- uuid.NewString()
unfoldable pub new_uuid : Env → Action Uuid
new_uuid env w = (ok (env.uuid w.tick), record w { tick = suc w.tick })

-- Emission is asynchronous and never fails the request.
unfoldable pub emit : Event → Action (Unit {0})
emit e w = (ok tt, record w { events = w.events ++ e ∷ [] })

-- BEGIN and COMMIT change no table.
unfoldable pub bracket : Env → Action (Unit {0})
unfolding statement
bracket env = statement env (λ k db. (ok tt, db))

module _ {A : Type 0} where
  unfoldable pub attempt : Env → Action A → Action A
  unfolding ◌>>=◌ bracket
  attempt env body = do bracket env; a ← body; bracket env; pure a

  -- On an error the tables are what they were before.
  abbrev pub rollback : Db → Result A × World → Result A × World
  rollback before (ok a, w) = (ok a, w)
  rollback before (err e, w) = (err e, record w { db = before })

  -- pool.Begin … tx.Commit, with the deferred tx.Rollback
  unfoldable pub transaction : Env → Action A → Action A
  unfolding attempt
  transaction env body w = rollback w.db (attempt env body w)

-- LIMIT and OFFSET: PostgreSQL refuses negative numbers.
unfoldable pub limit_offset : {A : Type 0} → ℤ → ℤ → List A → Result (List A)
limit_offset (pos limit) (pos offset) rows = ok (take limit (drop offset rows))
limit_offset (negsuc limit) offset rows = err failure
limit_offset (pos limit) (negsuc offset) rows = err failure

-- The outcome of an UPDATE or a DELETE: a broken constraint, no row affected, or the new tables.
unfoldable pub affected : {A : Type 0} → (found fits : Bool) → A → Db → Db → Result A × Db
affected false fits a db' db = (err not_found, db)
affected true false a db' db = (err failure, db)
affected true true a db' db = (ok a, db')

-- The outcome of an INSERT: a broken constraint, or the new tables.
unfoldable pub inserted : {A : Type 0} → (fits : Bool) → A → Db → Db → Result A × Db
inserted false a db' db = (err failure, db)
inserted true a db' db = (ok a, db')

-- NUMERIC(12,2), and the same with CHECK (… >= 0)
abbrev pub numeric_fits : ℤ → Bool
numeric_fits x = ltb (pos_part x) 1000000000000 && ltb (neg_part x) 1000000000000

abbrev pub price_fits : ℤ → Bool
price_fits x = leb_ℤ (pos 0) x && numeric_fits x

-- A nullable foreign key.
abbrev pub refers : (Uuid → Bool) → Option Uuid → Bool
refers exists none = true
refers exists (some id) = exists id

-- Storage.SignedGetURL: none is an error
unfoldable pub sign_url : Env → Text → ℕ → Action (Option Text)
sign_url env key ttl w = (ok (env.signed_get_url w.tick key ttl), record w { tick = suc w.tick })
