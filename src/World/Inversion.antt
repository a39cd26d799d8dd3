-- ===== src/World/Inversion.antt =====
-- What an action that returned went through.
use agentic_mudahurus.Shared.{◌≡◌, ◌≢◌, refl, sym, ◌∙◌, ap, arith, suc, List, take, drop}
use agentic_mudahurus.Shared.Int.{ℤ, pos, pos_part, ◌≤ℤ◌}
use agentic_mudahurus.Schema.{Db}
use agentic_mudahurus.World.Preserves.{Preserves, bind_elim}
use agentic_mudahurus.World.{
  Error, Result, ok, err, World, Env, Action, continue, transaction, map_error, mapped, statement,
  limit_offset, ◌>>=◌,
}

continue-ok :
    {A B : Type 0} (f : A → Action B) (r : Result A) (w : World) (b : B)
    → (continue f r w).0 ≡ ok b
    → (a : A) × (r ≡ ok a)
continue-ok f (ok a) w b h = (a, refl)
continue-ok f (err e) w b h = cc

-- If a bind returned, so did its first action, and the second ran in the world that it left.
pub bind-ok :
    {A B : Type 0} (m : Action A) (f : A → Action B) (w : World) (b : B)
    → ((m >>= f) w).0 ≡ ok b
    → (a : A) × ((m w).0 ≡ ok a) × ((m >>= f) w ≡ f a (m w).1)
unfolding ◌>>=◌
bind-ok m f w b h =
    let (a, e) = continue-ok f (m w).0 (m w).1 b h in (a, e, ap (λ r. continue f r (m w).1) e)

-- A bind whose first action returns goes on with the second.
pub bind-returned :
    {A B : Type 0} (m : Action A) (f : A → Action B) (w : World) (a : A)
    → (m w).0 ≡ ok a
    → (m >>= f) w ≡ f a (m w).1
unfolding ◌>>=◌
bind-returned m f w a e = ap (λ r. continue f r (m w).1) e

-- The same, further on in a chain of binds that came to the outcome `s`.
pub chain-ok :
    {A B : Type 0} {s : Result B × World} (m : Action A) (f : A → Action B) (w : World) (b : B)
    → s ≡ (m >>= f) w
    → s.0 ≡ ok b
    → (a : A) × ((m w).0 ≡ ok a) × (s ≡ f a (m w).1)
chain-ok m f w b e h =
    let (a, returned, e2) = bind-ok m f w b (sym (ap (λ s. s.0) e) ∙ h) in (a, returned, e ∙ e2)

-- A query that ran answered by the tables.
pub query-ok :
    {A : Type 0} (env : Env) (answer : Db → Result A) (w : World) (a : A)
    → (statement env (λ k db. (answer db, db)) w).0 ≡ ok a
    → answer w.db ≡ ok a
unfolding statement
query-ok env answer w a h = ground arith

pub limit_offset-ok :
    {A : Type 0} (limit offset : ℤ) (xs ys : List A)
    → limit_offset limit offset xs ≡ ok ys
    → (pos 0 ≤ℤ offset) × (take (pos_part limit) (drop (pos_part offset) xs) ≡ ys)
unfolding limit_offset
limit_offset-ok limit offset xs ys h = ground arith

pub map_error-ok :
    {A : Type 0} (f : Error → Error) (m : Action A) (w : World) (a : A)
    → (map_error f m w).0 ≡ ok a
    → (m w).0 ≡ ok a
unfolding map_error
map_error-ok f m w a h = ground arith

-- If the first action of a bind fails, the bind fails with its error.
pub bind-err :
    {A B : Type 0} (m : Action A) (f : A → Action B) (w : World) (e : Error)
    → (m w).0 ≡ err e
    → ((m >>= f) w).0 ≡ err e
unfolding ◌>>=◌
bind-err m f w e h = rw h refl

mapped-refused :
    {A : Type 0} (e : Error) (r : Result A) → ((a : A) → r ≢ ok a) → mapped (λ _. e) r ≡ err e
mapped-refused e (ok a) h = absurd (h a refl)
mapped-refused e (err x) h = refl

-- An action that never returns here fails with the error put in the place of its own.
pub map_error-refused :
    {A : Type 0} (e : Error) (m : Action A) (w : World)
    → ((a : A) → (m w).0 ≢ ok a)
    → (map_error (λ _. e) m w).0 ≡ err e
unfolding map_error
map_error-refused e m w h = mapped-refused e (m w).0 h

-- A transaction either leaves the tables as they were, or returns what its body returned and leaves
-- them as the body did.
pub transaction_outcome :
    {A : Type 0} (env : Env) (body : Action A) (w : World) (a : A)
    → (transaction env body w).0 ≡ ok a
    → (v : World) × (v.db ≡ w.db)
      × ((body v).0 ≡ ok a)
      × ((transaction env body w).1.db ≡ (body v).1.db)
unfolding transaction ◌>>=◌
transaction_outcome env body w a h =
    (record w { tick = suc w.tick }, refl, ground arith, ground arith)

pub transaction_failed :
    {A : Type 0} (env : Env) (body : Action A) (w : World) (e : Error)
    → (transaction env body w).0 ≡ err e
    → (transaction env body w).1.db ≡ w.db
unfolding transaction ◌>>=◌
transaction_failed env body w e h = ground arith

-- An error of the action leaves the tables as they were.
pub record Atomic {A : Type 0} (m : Action A) : Type 0 where
  pub holds : (w : World) (e : Error) → (m w).0 ≡ err e → (m w).1.db ≡ w.db

module _ {A B : Type 0} (m : Action A) (f : A → Action B) where
  -- First what only reads, then what is atomic.
  pub Atomic-read :
      ((before : Db) → Preserves (λ db. db ≡ before) m)
      → ((a : A) → Atomic (f a))
      → Atomic (m >>= f)
  Atomic-read reads atomic = record {
    holds = λ w.
        bind_elim (λ s. (e : Error) → s.0 ≡ err e → s.1.db ≡ w.db) m f w
          (λ a returned e h. (atomic a).holds (m w).1 e h ∙ same w) (λ e failed e2 h. same w);
  }
    where
      same : (w : World) → (m w).1.db ≡ w.db
      same w = (reads w.db).holds w refl

  -- What is atomic, then what cannot fail.
  pub Atomic-last :
      Atomic m → ((a : A) (w : World) (e : Error) → (f a w).0 ≢ err e) → Atomic (m >>= f)
  Atomic-last atomic total = record {
    holds = λ w.
        bind_elim (λ s. (e : Error) → s.0 ≡ err e → s.1.db ≡ w.db) m f w
          (λ a returned e h. absurd (total a (m w).1 e h))
          (λ e failed e2 h. atomic.holds w e failed);
  }
