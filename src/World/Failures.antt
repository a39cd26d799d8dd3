-- ===== src/World/Failures.antt =====
-- Actions whose only error is that the database refuses or is away.
use agentic_mudahurus.Shared.{◌≡◌, ◌∙◌, ap, arith}
use agentic_mudahurus.Schema.{Db}
use agentic_mudahurus.World.{
  Error, failure, Result, ok, err, World, Env, Action, pure, transaction, attempt, rollback,
  bracket, ◌>>=◌,
}
use agentic_mudahurus.World.Preserves.{bind_elim}

pub record OnlyFails {A : Type 0} (m : Action A) : Type 0 where
  pub holds : (w : World) (e : Error) → (m w).0 ≡ err e → e ≡ failure

pub OnlyFails-pure : {A : Type 0} (a : A) → OnlyFails (pure a)
unfolding pure
OnlyFails-pure a = record { holds = λ w e h. absurd (cc h) }

pub OnlyFails-bind :
    {A B : Type 0} (m : Action A) (f : A → Action B)
    → OnlyFails m
    → ((a : A) → OnlyFails (f a))
    → OnlyFails (m >>= f)
OnlyFails-bind m f first next = record {
  holds = λ w.
      bind_elim (λ s. (e : Error) → s.0 ≡ err e → e ≡ failure) m f w
        (λ a returned. (next a).holds (m w).1)
        (λ e failed e2 h. let same : e ≡ e2 = cc h in first.holds w e2 (failed ∙ ap err same));
}

bracket-OnlyFails : (env : Env) → OnlyFails (bracket env)
unfolding bracket
bracket-OnlyFails env = record { holds = λ w e h. ground arith }

rollback-err :
    {A : Type 0} (before : Db) (s : Result A × World) (e : Error)
    → (rollback before s).0 ≡ err e
    → s.0 ≡ err e
rollback-err before (ok a, w) e h = h
rollback-err before (err x, w) e h = h

pub OnlyFails-transaction :
    {A : Type 0} (env : Env) (body : Action A) → OnlyFails body → OnlyFails (transaction env body)
unfolding transaction attempt
OnlyFails-transaction env body only = record {
  holds = λ w e h.
      (OnlyFails-bind (bracket env) _ (bracket-OnlyFails env) (λ u. OnlyFails-bind body _ only (λ a.
          OnlyFails-bind (bracket env) _ (bracket-OnlyFails env) (λ v. OnlyFails-pure a)))).holds
        w e (rollback-err w.db (attempt env body w) e h);
}
