-- ===== src/Shared/Keys.antt =====
-- Rows of a table that a UNIQUE constraint tells apart: no two of them clash.
use agentic_mudahurus.Shared.Lists.{All, All-append, delete_where, any}
use mathlib.Core.List.{List, [], ◌∷◌, ◌++◌, map}
use mathlib.Core.Bool.{Bool, false}
use mathlib.Core.Path.{◌≡◌}
use mathlib.Core.Logic.{inl, inr}
use native.Mathlib.Omega.{arith}
use agentic_mudahurus.Shared.Tests.{Bool-cases}

module _ {ℓ κ} {A : Type ℓ} (P : A → Type κ) where
  pub All-delete_where : (hit : A → Bool) (xs : List A) → All P xs → All P (delete_where hit xs)
  All-delete_where hit [] h = tt
  All-delete_where hit (x ∷ xs) (hx, h) = elim (Bool-cases (hit x)) [
    | inl e ↦ rw e (All-delete_where hit xs h)
    | inr e ↦ rw e (hx, All-delete_where hit xs h)
  ]

-- A query that finds no row says so of each row.
pub any-All :
    {A : Type 0} (p : A → Bool) (xs : List A) → any p xs ≡ false → All (λ x. p x ≡ false) xs
any-All p [] e = tt
any-All p (x ∷ xs) e = let rest = any-All p xs in ground arith

module _ {A : Type 0} (clash : A → A → Bool) where
  abbrev pub Apart : List A → Type 0
  Apart [] = Unit
  Apart (x ∷ xs) = All (λ y. clash x y ≡ false) xs × Apart xs

  pub Apart-insert :
      (xs : List A) (y : A) → Apart xs → All (λ x. clash x y ≡ false) xs → Apart (xs ++ y ∷ [])
  Apart-insert [] y h k = (tt, tt)
  Apart-insert (x ∷ xs) y (hx, h) (kx, k) =
      (All-append (λ z. clash x z ≡ false) xs (y ∷ []) hx (kx, tt), Apart-insert xs y h k)

  pub Apart-delete : (hit : A → Bool) (xs : List A) → Apart xs → Apart (delete_where hit xs)
  Apart-delete hit [] h = tt
  Apart-delete hit (x ∷ xs) (hx, h) = elim (Bool-cases (hit x)) [
    | inl e ↦ rw e (Apart-delete hit xs h)
    | inr e ↦ rw e (All-delete_where _ hit xs hx, Apart-delete hit xs h)
  ]

  module _ (S : A → Type 0) (f : A → A)
      (apart : (x y : A) → S x → S y → clash x y ≡ false → clash (f x) (f y) ≡ false) where
    All-clash-map :
        (x : A) (ys : List A)
        → S x
        → All S ys
        → All (λ y. clash x y ≡ false) ys
        → All (λ y. clash (f x) y ≡ false) (map f ys)
    All-clash-map x [] s ss h = tt
    All-clash-map x (y ∷ ys) s (sy, ss) (hy, h) = (apart x y s sy hy, All-clash-map x ys s ss h)

    pub Apart-map : (xs : List A) → All S xs → Apart xs → Apart (map f xs)
    Apart-map [] ss h = tt
    Apart-map (x ∷ xs) (s, ss) (hx, h) = (All-clash-map x xs s ss hx, Apart-map xs ss h)
