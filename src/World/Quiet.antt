-- ===== src/World/Quiet.antt =====
-- Actions that leave the stored files alone: a rule for each way to build an action.
use agentic_mudahurus.Shared.{
  ℕ, Bool, true, false, Option, none, some, Text, ◌≡◌, refl, ◌∙◌, if◌then◌else◌,
}
use agentic_mudahurus.Schema.{Db}
use agentic_mudahurus.World.{
  Error, Result, ok, err, Event, World, Env, Action, pure, raise, lift, answer, statement, continue,
  try, ◌>>=◌, sign_url, emit, map_error, require,
}

pub record LeavesFiles {A : Type 0} (m : Action A) : Type 0 where
  pub holds : (w : World) → (m w).1.files ≡ w.files

answer-files :
    {A : Type 0} (b : Bool) (outcome : Result A × Db) (w : World)
    → (answer b outcome w).1.files ≡ w.files
answer-files true outcome w = refl
answer-files false (r, db') w = refl

module _ {A : Type 0} where
  pub LeavesFiles-pure : (a : A) → LeavesFiles (pure a)
  unfolding pure
  LeavesFiles-pure a = record { holds = λ w. refl }

  pub LeavesFiles-raise : (e : Error) → LeavesFiles {A = A} (raise e)
  unfolding raise
  LeavesFiles-raise e = record { holds = λ w. refl }

  pub LeavesFiles-lift : (r : Result A) → LeavesFiles (lift r)
  unfolding lift
  LeavesFiles-lift r = record { holds = λ w. refl }

  pub LeavesFiles-require : (found : Option A) (e : Error) → LeavesFiles (require found e)
  unfolding require
  LeavesFiles-require none e = record { holds = λ w. refl }
  LeavesFiles-require (some a) e = record { holds = λ w. refl }

  pub LeavesFiles-statement :
      (env : Env) (f : ℕ → Db → Result A × Db) → LeavesFiles (statement env f)
  unfolding statement
  LeavesFiles-statement env f = record {
    holds = λ w. answer-files (env.fails w.tick) (f w.tick w.db) w;
  }

  pub LeavesFiles-try : (m : Action A) → LeavesFiles m → LeavesFiles (try m)
  unfolding try
  LeavesFiles-try m k = record { holds = k.holds }

  pub LeavesFiles-map_error :
      (f : Error → Error) (m : Action A) → LeavesFiles m → LeavesFiles (map_error f m)
  unfolding map_error
  LeavesFiles-map_error f m k = record { holds = k.holds }

  pub LeavesFiles-if :
      (test : Bool) (m n : Action A)
      → LeavesFiles m
      → LeavesFiles n
      → LeavesFiles (if test then m else n)
  LeavesFiles-if true m n km kn = km
  LeavesFiles-if false m n km kn = kn

pub LeavesFiles-sign_url : (env : Env) (key : Text) (ttl : ℕ) → LeavesFiles (sign_url env key ttl)
unfolding sign_url
LeavesFiles-sign_url env key ttl = record { holds = λ w. refl }

pub LeavesFiles-emit : (e : Event) → LeavesFiles (emit e)
unfolding emit
LeavesFiles-emit e = record { holds = λ w. refl }

continue-files :
    {A B : Type 0} (f : A → Action B) (r : Result A) (w v : World)
    → ((a : A) → LeavesFiles (f a))
    → v.files ≡ w.files
    → (continue f r v).1.files ≡ w.files
continue-files f (ok a) w v k e = (k a).holds v ∙ e
continue-files f (err x) w v k e = e

pub LeavesFiles-bind :
    {A B : Type 0} (m : Action A) (f : A → Action B)
    → LeavesFiles m
    → ((a : A) → LeavesFiles (f a))
    → LeavesFiles (m >>= f)
unfolding ◌>>=◌
LeavesFiles-bind m f km kf = record {
  holds = λ w. continue-files f (m w).0 w (m w).1 kf (km.holds w);
}

pub ruleset quiet_rules = (
  LeavesFiles-pure, LeavesFiles-raise, LeavesFiles-lift, LeavesFiles-require, LeavesFiles-statement,
  LeavesFiles-try, LeavesFiles-map_error, LeavesFiles-if, LeavesFiles-sign_url, LeavesFiles-emit,
  LeavesFiles-bind,
)
