-- ===== src/Shared/Find.antt =====
-- The first row of a table that passes a test.
use mathlib.Core.Path.{◌≡◌, refl}
use mathlib.Core.Bool.{Bool, true, false}
use mathlib.Core.Option
use mathlib.Core.Option.{Option, none, some}
use mathlib.Core.List.{List, [], ◌∷◌, ◌++◌}
use native.Mathlib.Omega.{arith}
use agentic_mudahurus.Shared.Tests.{if◌then◌else◌}
use agentic_mudahurus.Shared.Lists.{any, find, select, update_where, delete_where}

module _ {ℓ} {A : Type ℓ} where
  pub find-holds : (p : A → Bool) (xs : List A) (a : A) → find p xs ≡ some a → p a ≡ true
  find-holds p [] a e = cc
  find-holds p (x ∷ xs) a e = let rest = find-holds p xs a in ground arith

  pub find-none : (p : A → Bool) (xs : List A) → select p xs ≡ [] → find p xs ≡ none
  find-none p [] e = refl
  find-none p (x ∷ xs) e = let rest = find-none p xs in ground arith

  pub find-none-any : (p : A → Bool) (xs : List A) → find p xs ≡ none → any p xs ≡ false
  find-none-any p [] e = refl
  find-none-any p (x ∷ xs) e = let rest = find-none-any p xs in ground arith

  pub not_any-find : (p : A → Bool) (xs : List A) → any p xs ≡ false → find p xs ≡ none
  not_any-find p [] h = refl
  not_any-find p (x ∷ xs) h = ground (arith, not_any-find p xs)

  pub find-any : (p : A → Bool) (xs : List A) (a : A) → find p xs ≡ some a → any p xs ≡ true
  find-any p [] a e = cc
  find-any p (x ∷ xs) a e = let rest = find-any p xs a in ground arith

  first_of :
      (p : A → Bool) (xs : List A) (found : Option A)
      → find p xs ≡ found
      → any p xs ≡ true
      → (a : A) × (find p xs ≡ some a)
  first_of p xs none e h = absurd (cc (find-none-any p xs e, h))
  first_of p xs (some a) e h = (a, e)

  pub any-find : (p : A → Bool) (xs : List A) → any p xs ≡ true → (a : A) × (find p xs ≡ some a)
  any-find p xs h = first_of p xs (find p xs) refl h

  -- A query that an update does not move rows in or out of sees the updated row.
  pub find-update_where :
      (q p : A → Bool) (f : A → A) (xs : List A)
      → ((x : A) → q (f x) ≡ q x)
      → find q (update_where p f xs) ≡ Option.map (λ x. if p x then f x else x) (find q xs)
  find-update_where q p f [] h = refl
  find-update_where q p f (x ∷ xs) h =
      let here : (q (f x) ≡ q x) = h x in ground (arith, find-update_where q p f xs h)

  pub find-append :
      (q : A → Bool) (xs ys : List A) (a : A) → find q xs ≡ some a → find q (xs ++ ys) ≡ some a
  find-append q [] ys a e = cc
  find-append q (x ∷ xs) ys a e = let rest = find-append q xs ys a in ground arith

  -- A deletion removes what the query finds, all of it or nothing.
  pub find-delete_where :
      (q p : A → Bool) (gone : Bool) (xs : List A)
      → ((x : A) → q x ≡ true → p x ≡ gone)
      → find q (delete_where p xs) ≡ (if gone then none else find q xs)
  find-delete_where q p true [] h = refl
  find-delete_where q p false [] h = refl
  find-delete_where q p gone (x ∷ xs) h =
      let rest = find-delete_where q p gone xs h in
      let here : (q x ≡ true → p x ≡ gone) = h x in ground arith

  -- A query that finds nothing before the last row finds that row or nothing.
  pub find-last :
      (q : A → Bool) (a : A) (xs : List A)
      → (q a ≡ true → find q xs ≡ none)
      → find q (xs ++ a ∷ []) ≡ (if q a then some a else find q xs)
  find-last q a [] h = refl
  find-last q a (x ∷ xs) h =
      let rest : ((q a ≡ true → find q xs ≡ none)
          → find q (xs ++ a ∷ []) ≡ (if q a then some a else find q xs)) =
        find-last q a xs in
      ground arith
