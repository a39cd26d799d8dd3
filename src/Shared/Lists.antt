-- ===== src/Shared/Lists.antt =====
-- Lists measured by native numbers, predicates over them, and the row operations of a table.
use Prim.Native.Nat.{ℕ, zero, suc, ◌+◌, min}
use mathlib.Core.Path.{◌≡◌, refl, ap}
use mathlib.Core.Bool.{Bool, true, false, ◌||◌}
use mathlib.Core.Option.{Option, none, some}
use mathlib.Core.List.{List, [], ◌∷◌, ◌++◌, map, Memᴰ}
use native.Mathlib.Omega.{arith}
use agentic_mudahurus.Shared.Tests.{if◌then◌else◌}

module _ {ℓ} {A : Type ℓ} where
  abbrev pub length : List A → ℕ
  length [] = 0
  length (x ∷ xs) = suc (length xs)

  abbrev pub take : ℕ → List A → List A
  take zero xs = []
  take (suc n) [] = []
  take (suc n) (x ∷ xs) = x ∷ take n xs

  abbrev pub drop : ℕ → List A → List A
  drop zero xs = xs
  drop (suc n) [] = []
  drop (suc n) (x ∷ xs) = drop n xs

  abbrev pub replicate : ℕ → A → List A
  replicate zero a = []
  replicate (suc n) a = a ∷ replicate n a

  abbrev pub any : (A → Bool) → List A → Bool
  any p [] = false
  any p (x ∷ xs) = p x || any p xs

  -- The rows that a WHERE clause keeps.
  abbrev pub select : (A → Bool) → List A → List A
  select p [] = []
  select p (x ∷ xs) = if p x then x ∷ select p xs else select p xs

  -- The first row that a WHERE clause keeps.
  abbrev pub find : (A → Bool) → List A → Option A
  find p [] = none
  find p (x ∷ xs) = if p x then some x else find p xs

  -- UPDATE … WHERE p
  abbrev pub update_where : (A → Bool) → (A → A) → List A → List A
  update_where p f [] = []
  update_where p f (x ∷ xs) = (if p x then f x else x) ∷ update_where p f xs

  -- DELETE … WHERE p
  abbrev pub delete_where : (A → Bool) → List A → List A
  delete_where p [] = []
  delete_where p (x ∷ xs) = if p x then delete_where p xs else x ∷ delete_where p xs

  -- ORDER BY, as a stable insertion sort.
  abbrev pub insert_by : (A → A → Bool) → A → List A → List A
  insert_by le x [] = x ∷ []
  insert_by le x (y ∷ ys) = if le x y then x ∷ y ∷ ys else y ∷ insert_by le x ys

  abbrev pub order_by : (A → A → Bool) → List A → List A
  order_by le [] = []
  order_by le (x ∷ xs) = insert_by le x (order_by le xs)

module _ {ℓ} {A : Type ℓ} where
  pub length-append : (xs ys : List A) → length (xs ++ ys) ≡ length xs + length ys
  length-append [] ys = omega arith
  length-append (x ∷ xs) ys = omega (arith, length-append xs ys)

  pub length-take : (n : ℕ) (xs : List A) → length (take n xs) ≡ min n (length xs)
  length-take zero xs = omega arith
  length-take (suc n) [] = omega arith
  length-take (suc n) (x ∷ xs) = omega (arith, length-take n xs)

  pub length-insert_by :
      (le : A → A → Bool) (x : A) (xs : List A) → length (insert_by le x xs) ≡ suc (length xs)
  length-insert_by le x [] = refl
  length-insert_by le x (y ∷ ys) = ground (arith, length-insert_by le x ys)

  pub length-order_by : (le : A → A → Bool) (xs : List A) → length (order_by le xs) ≡ length xs
  length-order_by le [] = refl
  length-order_by le (x ∷ xs) =
      ground (arith, length-insert_by le x (order_by le xs), length-order_by le xs)

  pub drop-append_length : (xs ys : List A) → drop (length xs) (xs ++ ys) ≡ ys
  drop-append_length [] ys = refl
  drop-append_length (x ∷ xs) ys = drop-append_length xs ys

module _ {ℓ κ} {A : Type ℓ} (P : A → Type κ) where
  abbrev pub All : List A → Type κ
  All [] = Unit
  All (x ∷ xs) = P x × All xs

  pub All-append : (xs ys : List A) → All xs → All ys → All (xs ++ ys)
  All-append [] ys _ hy = hy
  All-append (x ∷ xs) ys (px, hx) hy = (px, All-append xs ys hx hy)

  pub All-take : (n : ℕ) (xs : List A) → All xs → All (take n xs)
  All-take zero xs h = tt
  All-take (suc n) [] h = tt
  All-take (suc n) (x ∷ xs) (px, h) = (px, All-take n xs h)

  pub All-drop : (n : ℕ) (xs : List A) → All xs → All (drop n xs)
  All-drop zero xs h = h
  All-drop (suc n) [] h = tt
  All-drop (suc n) (x ∷ xs) (px, h) = All-drop n xs h

  pub All-insert_by :
      (le : A → A → Bool) (x : A) (xs : List A) → P x → All xs → All (insert_by le x xs)
  All-insert_by le x [] px h = (px, tt)
  All-insert_by le x (y ∷ ys) px (py, h) = let rest = All-insert_by le x ys px h in ground arith

  pub All-order_by : (le : A → A → Bool) (xs : List A) → All xs → All (order_by le xs)
  All-order_by le [] h = tt
  All-order_by le (x ∷ xs) (px, h) = All-insert_by le x (order_by le xs) px (All-order_by le xs h)

  -- What `select p` keeps satisfies `P`, if `p` implies it.
  pub All-select : (p : A → Bool) (xs : List A) → ((x : A) → p x ≡ true → P x) → All (select p xs)
  All-select p [] imp = tt
  All-select p (x ∷ xs) imp =
      let rest = All-select p xs imp in let here : (p x ≡ true → P x) = imp x in ground arith

  pub All-weaken_select : (p : A → Bool) (xs : List A) → All xs → All (select p xs)
  All-weaken_select p [] h = tt
  All-weaken_select p (x ∷ xs) (hx, h) = let rest = All-weaken_select p xs h in ground arith

  -- A row that is found is a row of the table.
  pub find-All : (p : A → Bool) (xs : List A) (a : A) → All xs → find p xs ≡ some a → P a
  find-All p [] a h e = cc
  find-All p (x ∷ xs) a (px, h) e = let rest = find-All p xs a h in ground arith

module _ {ℓ} {A : Type ℓ} where
  -- The table has the row.
  abbrev pub IsRow : List A → A → Type ℓ
  IsRow xs x = Memᴰ x xs

  All-step : (x : A) (xs ys : List A) → All (IsRow xs) ys → All (IsRow (x ∷ xs)) ys
  All-step x xs [] h = tt
  All-step x xs (y ∷ ys) (hy, h) = (Memᴰ.tail hy, All-step x xs ys h)

  pub All-IsRow : (xs : List A) → All (IsRow xs) xs
  All-IsRow [] = tt
  All-IsRow (x ∷ xs) = (Memᴰ.head refl, All-step x xs xs (All-IsRow xs))

  pub find-IsRow : (p : A → Bool) (xs : List A) (a : A) → find p xs ≡ some a → IsRow xs a
  find-IsRow p xs a e = find-All (IsRow xs) p xs a (All-IsRow xs) e

module _ {ℓ} {A : Type ℓ} where
  -- A query that sees none of the rows before or after an update gives what it gave.
  pub select-update_where :
      (q p : A → Bool) (f : A → A) (xs : List A)
      → ((x : A) → p x ≡ true → (q x ≡ false) × (q (f x) ≡ false))
      → select q (update_where p f xs) ≡ select q xs
  select-update_where q p f [] h = refl
  select-update_where q p f (x ∷ xs) h =
      let here : (p x ≡ true → (q x ≡ false) × (q (f x) ≡ false)) = h x in
      ground (arith, select-update_where q p f xs h)

  pub select-delete_where :
      (q p : A → Bool) (xs : List A)
      → ((x : A) → p x ≡ true → q x ≡ false)
      → select q (delete_where p xs) ≡ select q xs
  select-delete_where q p [] h = refl
  select-delete_where q p (x ∷ xs) h =
      let here : (p x ≡ true → q x ≡ false) = h x in ground (arith, select-delete_where q p xs h)

  pub select-append :
      (q : A → Bool) (xs ys : List A) → select q (xs ++ ys) ≡ select q xs ++ select q ys
  select-append q [] ys = refl
  select-append q (x ∷ xs) ys = ground (arith, select-append q xs ys)

  pub update_where-none :
      (p : A → Bool) (f : A → A) (xs : List A) → any p xs ≡ false → update_where p f xs ≡ xs
  update_where-none p f [] h = refl
  update_where-none p f (x ∷ xs) h = ground (arith, update_where-none p f xs)

  pub delete_where-none : (p : A → Bool) (xs : List A) → any p xs ≡ false → delete_where p xs ≡ xs
  delete_where-none p [] h = refl
  delete_where-none p (x ∷ xs) h = ground (arith, delete_where-none p xs)

  pub update_where-map :
      (p : A → Bool) (f : A → A) (xs : List A)
      → update_where p f xs ≡ map (λ x. if p x then f x else x) xs
  update_where-map p f [] = refl
  update_where-map p f (x ∷ xs) = ap (λ ys. (if p x then f x else x) ∷ ys) (update_where-map p f xs)

-- Two predicates at once.
pub All-both {ℓ κ μ} :
    {A : Type ℓ} (P : A → Type κ) (Q : A → Type μ) (xs : List A)
    → All P xs
    → All Q xs
    → All (λ x. P x × Q x) xs
All-both P Q [] h k = tt
All-both P Q (x ∷ xs) (hx, h) (kx, k) = ((hx, kx), All-both P Q xs h k)

-- What a query selects are rows of the table that pass its test.
pub select-rows {ℓ} :
    {A : Type ℓ} (p : A → Bool) (xs : List A) → All (λ x. (p x ≡ true) × IsRow xs x) (select p xs)
select-rows p xs =
    All-both (λ x. p x ≡ true) (IsRow xs) (select p xs) (All-select _ p xs (λ x h. h))
      (All-weaken_select (IsRow xs) p xs (All-IsRow xs))

pub take-map {ℓ κ} :
    {A : Type ℓ} {B : Type κ} (f : A → B) (n : ℕ) (xs : List A)
    → take n (map f xs) ≡ map f (take n xs)
take-map f zero xs = refl
take-map f (suc n) [] = refl
take-map f (suc n) (x ∷ xs) = ap (λ ys. f x ∷ ys) (take-map f n xs)

pub drop-map {ℓ κ} :
    {A : Type ℓ} {B : Type κ} (f : A → B) (n : ℕ) (xs : List A)
    → drop n (map f xs) ≡ map f (drop n xs)
drop-map f zero xs = refl
drop-map f (suc n) [] = refl
drop-map f (suc n) (x ∷ xs) = drop-map f n xs
