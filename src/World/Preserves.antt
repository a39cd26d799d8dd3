-- ===== src/World/Preserves.antt =====
-- Properties of the tables that an action keeps, whether it returns or fails: a rule for each way
-- to build an action.
use agentic_mudahurus.Shared.{
  ℕ, Bool, true, false, Option, none, some, Text, ◌≡◌, refl, if◌then◌else◌,
}
use agentic_mudahurus.Schema.{Db}
use agentic_mudahurus.World.{
  Error, Result, ok, err, Event, World, Env, Action, pure, raise, lift, answer, statement, continue,
  attempt, bracket, try, ◌>>=◌, time_now, new_uuid, sign_url, emit, rollback, transaction,
  map_error, require, affected, inserted,
}

pub record Preserves {A : Type 0} (P : Db → Type 0) (m : Action A) : Type 0 where
  pub holds : (w : World) → P w.db → P (m w).1.db

Preserves-answer :
    {A : Type 0} (P : Db → Type 0) (b : Bool) (outcome : Result A × Db) (w : World)
    → P w.db
    → P outcome.1
    → P (answer b outcome w).1.db
Preserves-answer P true outcome w h k = h
Preserves-answer P false (r, db') w h k = k

module _ {A : Type 0} {P : Db → Type 0} where
  pub Preserves-pure : (value : A) → Preserves P (pure value)
  unfolding pure
  Preserves-pure value = record { holds = λ w before. before }

  pub Preserves-raise : (e : Error) → Preserves {A = A} P (raise e)
  unfolding raise
  Preserves-raise e = record { holds = λ w before. before }

  pub Preserves-lift : (outcome : Result A) → Preserves P (lift outcome)
  unfolding lift
  Preserves-lift outcome = record { holds = λ w before. before }

  pub Preserves-require : (found : Option A) (e : Error) → Preserves P (require found e)
  unfolding require
  Preserves-require none e = record { holds = λ w before. before }
  Preserves-require (some value) e = record { holds = λ w before. before }

  pub Preserves-try : (action : Action A) → Preserves P action → Preserves P (try action)
  unfolding try
  Preserves-try action kept = record { holds = kept.holds }

  pub Preserves-map_error :
      (f : Error → Error) (action : Action A)
      → Preserves P action
      → Preserves P (map_error f action)
  unfolding map_error
  Preserves-map_error f action kept = record { holds = kept.holds }

  pub Preserves-if :
      (test : Bool) (taken other : Action A)
      → (test ≡ true → Preserves P taken)
      → (test ≡ false → Preserves P other)
      → Preserves P (if test then taken else other)
  Preserves-if true _ _ when_true when_false = when_true refl
  Preserves-if false _ _ when_true when_false = when_false refl

  -- A statement keeps what its effect on the tables keeps.
  pub Preserves-statement :
      (env : Env) (f : ℕ → Db → Result A × Db)
      → ((k : ℕ) (db : Db) → P db → P (f k db).1)
      → Preserves P (statement env f)
  unfolding statement
  Preserves-statement env f keep = record {
    holds = λ w h. Preserves-answer P (env.fails w.tick) (f w.tick w.db) w h (keep w.tick w.db h);
  }

module _ {P : Db → Type 0} where
  pub Preserves-time_now : (env : Env) → Preserves P (time_now env)
  unfolding time_now
  Preserves-time_now env = record { holds = λ w h. h }

  pub Preserves-new_uuid : (env : Env) → Preserves P (new_uuid env)
  unfolding new_uuid
  Preserves-new_uuid env = record { holds = λ w h. h }

  pub Preserves-sign_url : (env : Env) (key : Text) (ttl : ℕ) → Preserves P (sign_url env key ttl)
  unfolding sign_url
  Preserves-sign_url env key ttl = record { holds = λ w h. h }

  pub Preserves-emit : (e : Event) → Preserves P (emit e)
  unfolding emit
  Preserves-emit e = record { holds = λ w h. h }

Preserves-continue :
    {A B : Type 0} (P : Db → Type 0) (rest : A → Action B) (outcome : Result A) (w : World)
    → ((value : A) → Preserves P (rest value))
    → P w.db
    → P (continue rest outcome w).1.db
Preserves-continue P rest (ok value) w kept before = (kept value).holds w before
Preserves-continue P rest (err e) w kept before = before

module _ {A B : Type 0} {P : Db → Type 0} where
  pub Preserves-bind :
      (first : Action A) (rest : A → Action B)
      → Preserves P first
      → ((value : A) → Preserves P (rest value))
      → Preserves P (first >>= rest)
  unfolding ◌>>=◌
  Preserves-bind first rest first_kept rest_kept = record {
    holds = λ w before.
        Preserves-continue P rest (first w).0 (first w).1 rest_kept (first_kept.holds w before);
  }

Preserves-rollback :
    {A : Type 0} (P : Db → Type 0) (before : Db) (s : Result A × World)
    → P before
    → P s.1.db
    → P (rollback before s).1.db
Preserves-rollback P before (ok a, w) h k = k
Preserves-rollback P before (err e, w) h k = h

module _ {P : Db → Type 0} where
  Preserves-bracket : (env : Env) → Preserves P (bracket env)
  unfolding bracket
  Preserves-bracket env = Preserves-statement env (λ k db. (ok tt, db)) (λ k db h. h)

  Preserves-attempt :
      {A : Type 0} (env : Env) (body : Action A) → Preserves P body → Preserves P (attempt env body)
  unfolding attempt
  Preserves-attempt env body k = search (Preserves-bracket, Preserves-bind, Preserves-pure)

  pub Preserves-transaction :
      {A : Type 0} (env : Env) (body : Action A)
      → Preserves P body
      → Preserves P (transaction env body)
  unfolding transaction
  Preserves-transaction env body k = record {
    holds = λ w h.
        Preserves-rollback P w.db (attempt env body w) h ((Preserves-attempt env body k).holds w h);
  }

-- What holds after a statement that ran in a database with `P`, or failed there.
pub statement_leads :
    {A : Type 0} (P Q : Db → Type 0) (env : Env) (f : ℕ → Db → Result A × Db)
    → ((db : Db) → P db → Q db)
    → ((k : ℕ) (db : Db) → P db → Q (f k db).1)
    → (w : World) → P w.db
    → Q (statement env f w).1.db
unfolding statement
statement_leads P Q env f failed ran w h =
    Preserves-answer Q (env.fails w.tick) (f w.tick w.db) w (failed w.db h) (ran w.tick w.db h)

-- To follow a bind through both outcomes of its first action.
pub bind_elim :
    {A B : Type 0} (Q : Result B × World → Type 0) (m : Action A) (f : A → Action B) (w : World)
    → ((a : A) → (m w).0 ≡ ok a → Q (f a (m w).1))
    → ((e : Error) → (m w).0 ≡ err e → Q (err e, (m w).1))
    → Q ((m >>= f) w)
unfolding ◌>>=◌
bind_elim {A} {B} Q m f w returned failed = go (m w).0 refl
  where
    go : (r : Result A) → (m w).0 ≡ r → Q (continue f r (m w).1)
    go (ok a) e = returned a e
    go (err x) e = failed x e

-- What the first action of a bind brings about, the second need only keep.
pub bind_then :
    {A B : Type 0} (Q : Db → Type 0) (m : Action A) (f : A → Action B) (w : World)
    → Q (m w).1.db
    → ((a : A) → Preserves Q (f a))
    → Q ((m >>= f) w).1.db
bind_then Q m f w here kept =
    bind_elim (λ s. Q s.1.db) m f w (λ a _. (kept a).holds (m w).1 here) (λ _ _. here)

module _ {A : Type 0} (P : Db → Type 0) where
  pub affected_keeps :
      (found fits : Bool) (a : A) (db' db : Db)
      → P db
      → (found ≡ true → P db')
      → P (affected found fits a db' db).1
  unfolding affected
  affected_keeps false fits a db' db h k = h
  affected_keeps true false a db' db h k = h
  affected_keeps true true a db' db h k = k refl

  pub affected_leads :
      (found fits : Bool) (a : A) (db' db : Db)
      → P db
      → (found ≡ true → fits ≡ true → P db')
      → P (affected found fits a db' db).1
  unfolding affected
  affected_leads false fits a db' db h k = h
  affected_leads true false a db' db h k = h
  affected_leads true true a db' db h k = k refl refl

  pub inserted_keeps :
      (fits : Bool) (a : A) (db' db : Db)
      → P db
      → (fits ≡ true → P db')
      → P (inserted fits a db' db).1
  unfolding inserted
  inserted_keeps false a db' db h k = h
  inserted_keeps true a db' db h k = k refl

pub ruleset preserve_rules = (
  Preserves-pure, Preserves-raise, Preserves-lift, Preserves-require, Preserves-try,
  Preserves-map_error, Preserves-if, Preserves-time_now, Preserves-new_uuid, Preserves-emit,
  Preserves-sign_url, Preserves-bind, Preserves-transaction,
)
