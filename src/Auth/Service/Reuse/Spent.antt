-- ===== src/Auth/Service/Reuse/Spent.antt =====
-- Rows that an update spends, and that stay spent.
use agentic_mudahurus.Shared.{
  ◌≡◌, refl, subst, ◌∙◌, Bool, true, false, Option, none, some, List, [], ◌∷◌, ◌++◌, arith, any,
  find, update_where, Text, text_eq, text_eq_sound, ◌&&◌, ◌||◌, &&-eq-true, Bool-cases, inl, inr,
}
use agentic_mudahurus.Schema.{Uuid, Db}
use agentic_mudahurus.Auth.Store.{returning}

-- A row that passes the test is stored, and none that passes is unspent.
pub record Spent {ℓ} {A : Type ℓ} (test unspent : A → Bool) (xs : List A) : Type 0 where
  pub stored : any test xs ≡ true
  pub dead : any (λ x. test x && unspent x) xs ≡ false

-- ---- what the statements do to it ----

any-append {ℓ} :
    {A : Type ℓ} (p : A → Bool) (xs ys : List A) → any p (xs ++ ys) ≡ (any p xs || any p ys)
any-append p [] ys = refl
any-append p (x ∷ xs) ys = let rest = any-append p xs ys in ground arith

any-update_where {ℓ} :
    {A : Type ℓ} (q p : A → Bool) (f : A → A) (xs : List A)
    → ((x : A) → p x ≡ true → q (f x) ≡ true → q x ≡ true)
    → any q xs ≡ false
    → any q (update_where p f xs) ≡ false
any-update_where q p f [] h e = refl
any-update_where q p f (x ∷ xs) h e =
    let rest = any-update_where q p f xs h in
    let here : (p x ≡ true → q (f x) ≡ true → q x ≡ true) = h x in ground arith

any-update_where-same {ℓ} :
    {A : Type ℓ} (q p : A → Bool) (f : A → A) (xs : List A)
    → ((x : A) → q (f x) ≡ q x)
    → any q (update_where p f xs) ≡ any q xs
any-update_where-same q p f [] h = refl
any-update_where-same q p f (x ∷ xs) h =
    let rest = any-update_where-same q p f xs h in let here : (q (f x) ≡ q x) = h x in ground arith

-- What a UNIQUE index on the rows that pass the test means.
abbrev pub Once {ℓ} : {A : Type ℓ} → (A → Bool) → List A → Type 0
Once q [] = Unit
Once q (x ∷ xs) = (q x ≡ true → any q xs ≡ false) × Once q xs

pub find-any {ℓ} :
    {A : Type ℓ} (p q : A → Bool) (xs : List A)
    → ((x : A) → p x ≡ true → q x ≡ true)
    → any q xs ≡ false
    → find p xs ≡ none
find-any p q [] h e = refl
find-any p q (x ∷ xs) h e =
    let rest = find-any p q xs h in let here : (p x ≡ true → q x ≡ true) = h x in ground arith

any-weaken {ℓ} :
    {A : Type ℓ} (q u : A → Bool) (xs : List A)
    → any q xs ≡ false
    → any (λ x. q x && u x) xs ≡ false
any-weaken q u [] e = refl
any-weaken q u (x ∷ xs) e = let rest = any-weaken q u xs in ground arith

module _ {ℓ} {A : Type ℓ} (q u live : A → Bool) (f : A → A)
    (narrow : (x : A) → live x ≡ true → q x ≡ true) (same : (x : A) → q (f x) ≡ q x)
    (spent : (x : A) → u (f x) ≡ false) where
  -- The one row that passes the test is hit by the update, and is spent afterwards.
  pub spend :
      (xs : List A) (a : A) → Once q xs → find live xs ≡ some a → Spent q u (update_where live f xs)
  spend [] a h e = cc
  spend (x ∷ xs) a (once, h) e = elim (Bool-cases (live x)) [
    | inl hit ↦
        let mine = narrow x hit in
        let none_left = once mine in
        let after = any-update_where-same q live f xs same ∙ none_left in
        let weak = any-weaken q u (update_where live f xs) after in
        let here = spent x in
        let hashed = same x in
        rw hit (record { stored = rw (hashed, mine) refl; dead = rw (hashed, mine, here) weak })
    | inr miss ↦
        let later : find live xs ≡ some a = rw miss at e in
        let other : q x ≡ false = not_mine x xs a once later in
        let rest = spend xs a h later in
        rw miss (record { stored = rw other rest.stored; dead = rw other rest.dead })
  ]
    where
      not_mine :
          (x : A) (xs : List A) (a : A)
          → (q x ≡ true → any q xs ≡ false)
          → find live xs ≡ some a
          → q x ≡ false
      not_mine x xs a once later = elim (Bool-cases (q x)) [
        | inr e ↦ e
        | inl e ↦ let gone = find-any live q xs narrow (once e) in cc
      ]

module _ {ℓ} {A : Type ℓ} (q u : A → Bool) (f : A → A) (same : (x : A) → q (f x) ≡ q x)
    (spent : (x : A) → u (f x) ≡ false) where
  pub Spent-update : (p : A → Bool) (xs : List A) → Spent q u xs → Spent q u (update_where p f xs)
  Spent-update p xs s = record {
    stored = any-update_where-same q p f xs same ∙ s.stored;
    dead =
        any-update_where (λ x. q x && u x) p f xs
          (λ x _ hit. let gone = spent x in absurd (unspent (q (f x)) (u (f x)) hit gone)) s.dead;
  }
    where
      unspent : (a b : Bool) → (a && b) ≡ true → b ≡ false → ⊥
      unspent a b h k = cc ((&&-eq-true a b h).1, k)

pub Spent-insert {ℓ} :
    {A : Type ℓ} (q u : A → Bool) (xs : List A) (x : A)
    → q x ≡ false
    → Spent q u xs
    → Spent q u (xs ++ x ∷ [])
Spent-insert q u xs x other s = record {
  stored = any-append q xs (x ∷ []) ∙ rw s.stored refl;
  dead = any-append (λ y. q y && u y) xs (x ∷ []) ∙ rw (s.dead, other) refl;
}

-- A new hash that no row has is not one that some row has.
pub fresh-other {ℓ} :
    {A : Type ℓ} (hash_of : A → Text) (new hash : Text) (xs : List A)
    → any (λ x. text_eq (hash_of x) new) xs ≡ false
    → any (λ x. text_eq (hash_of x) hash) xs ≡ true
    → text_eq new hash ≡ false
fresh-other hash_of new hash xs fresh stored = elim (Bool-cases (text_eq new hash)) [
  | inr other ↦ other
  | inl e ↦
      let same = text_eq_sound new hash e in
      cc (subst (λ h. any (λ x. text_eq (hash_of x) h) xs ≡ false) same fresh, stored)
]

pub returning_keeps :
    (P : Db → Type 0) (o : Option Uuid) (db' db : Db) → P db → P db' → P (returning o db' db).1
returning_keeps P none db' db h k = h
returning_keeps P (some id) db' db h k = k
