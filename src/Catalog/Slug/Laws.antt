-- ===== src/Catalog/Slug/Laws.antt =====
-- What a slug looks like, and that a slug is its own slug.
use agentic_mudahurus.Shared.{
  inl, inr, Bool-cases, All, ℕ, ◌≡◌, ◌≢◌, refl, ap, ◌⊎◌, Bool, true, false, [], ◌∷◌, ◌&&◌, arith,
  Text, is_empty, is_space, trim_left, trim_right, trim, trim_space, to_lower_rune, to_lower,
  if◌then◌else◌,
}
use agentic_mudahurus.Catalog.Slug.{is_slug_char, is_dash, collapse, slugify}

-- Letters a to z, digits and dashes, no two dashes together; with `true`, no dash in front.
abbrev pub IsLoose : Bool → Text → Type 0
IsLoose after_dash [] = Unit
IsLoose after_dash (c ∷ s) =
    if is_slug_char c then IsLoose false s else (c ≡ b'-') × (after_dash ≡ false) × IsLoose true s

abbrev pub EndsWell : Text → Type 0
EndsWell [] = Unit
EndsWell (c ∷ []) = c ≢ b'-'
EndsWell (c ∷ d ∷ s) = EndsWell (d ∷ s)

abbrev pub IsSlug : Text → Type 0
IsSlug t = IsLoose true t × EndsWell t

dash-is_slug_char : is_slug_char b'-' ≡ false
unfolding is_slug_char
dash-is_slug_char = refl

slug_char-not_dash : (c : ℕ) → is_slug_char c ≡ true → is_dash c ≡ false
unfolding is_slug_char
slug_char-not_dash c h = ground arith

IsLoose-char :
    (r : Bool) (c : ℕ) (s : Text) → is_slug_char c ≡ true → IsLoose false s → IsLoose r (c ∷ s)
IsLoose-char r c s e h = rw e h

IsLoose-dash : (s : Text) → IsLoose true s → IsLoose false (b'-' ∷ s)
IsLoose-dash s h = rw dash-is_slug_char (refl, refl, h)

collapse-IsLoose : (r : Bool) (s : Text) → IsLoose r (collapse r s)
unfolding collapse
collapse-IsLoose r [] = tt
collapse-IsLoose true (c ∷ s) = elim (Bool-cases (is_slug_char c)) [
  | inl e ↦ rw (e, collapse) (IsLoose-char true c (collapse false s) e (collapse-IsLoose false s))
  | inr e ↦ rw (e, collapse) (collapse-IsLoose true s)
]
collapse-IsLoose false (c ∷ s) = elim (Bool-cases (is_slug_char c)) [
  | inl e ↦ rw (e, collapse) (IsLoose-char false c (collapse false s) e (collapse-IsLoose false s))
  | inr e ↦ rw (e, collapse) (IsLoose-dash (collapse true s) (collapse-IsLoose true s))
]

trim_left-IsLoose : (r : Bool) (s : Text) → IsLoose r s → IsLoose true (trim_left is_dash s)
unfolding trim_left
trim_left-IsLoose r [] h = tt
trim_left-IsLoose r (c ∷ s) h = elim (Bool-cases (is_slug_char c)) [
  | inl e ↦ rw (slug_char-not_dash c e) (IsLoose-char true c s e (rw e at h))
  | inr e ↦
      let (dash, _, rest) : (c ≡ b'-') × (r ≡ false) × IsLoose true s = rw e at h in
      rw dash (trim_left-IsLoose true s rest)
]

IsLoose-cons :
    (r : Bool) (c : ℕ) (s t : Text)
    → ((d : Bool) → IsLoose d s → IsLoose d t)
    → IsLoose r (c ∷ s)
    → IsLoose r (c ∷ t)
IsLoose-cons r c s t k h = elim (Bool-cases (is_slug_char c)) [
  | inl e ↦ IsLoose-char r c t e (k false (rw e at h))
  | inr e ↦
      let (dash, first, rest) : (c ≡ b'-') × (r ≡ false) × IsLoose true s = rw e at h in
      rw e (dash, first, k true rest)
]

trim_right-IsLoose : (r : Bool) (s : Text) → IsLoose r s → IsLoose r (trim_right is_dash s)
unfolding trim_right
trim_right-IsLoose r [] h = tt
trim_right-IsLoose r (c ∷ s) h = elim (Bool-cases (is_empty (trim_right is_dash s) && is_dash c)) [
  | inl e ↦ rw e tt
  | inr e ↦ rw e (IsLoose-cons r c s (trim_right is_dash s) (λ d k. trim_right-IsLoose d s k) h)
]

EndsWell-cons : (c : ℕ) (s : Text) → EndsWell s → (is_empty s ≡ true → c ≢ b'-') → EndsWell (c ∷ s)
EndsWell-cons c [] h k = k refl
EndsWell-cons c (d ∷ s) h k = h

trim_right-EndsWell : (s : Text) → EndsWell (trim_right is_dash s)
unfolding trim_right
trim_right-EndsWell [] = tt
trim_right-EndsWell (c ∷ s) = elim (Bool-cases (is_empty (trim_right is_dash s) && is_dash c)) [
  | inl e ↦ rw e tt
  | inr e ↦ rw e (EndsWell-cons c (trim_right is_dash s) (trim_right-EndsWell s) (ground arith))
]

-- For every name, the slug is words of a to z and 0 to 9 with single dashes between them: no other
-- character, no dash at either end, no two dashes together.
pub slugify-IsSlug : (lower_rune : ℕ → ℕ) (name : Text) → IsSlug (slugify lower_rune name)
unfolding slugify trim
slugify-IsSlug lower_rune name =
    let w = to_lower lower_rune (trim_space name) in
    let u = collapse false w in
    let v = trim_left is_dash u in
    (
      trim_right-IsLoose true v (trim_left-IsLoose false u (collapse-IsLoose false w)),
      trim_right-EndsWell v,
    )

-- A letter, a digit or a dash is lower case and no space.
abbrev IsPlain : ℕ → Type 0
IsPlain c = (is_slug_char c ≡ true) ⊎ (c ≡ b'-')

plain-lower : (table : ℕ → ℕ) (c : ℕ) → IsPlain c → to_lower_rune table c ≡ c
unfolding is_slug_char to_lower_rune
plain-lower table c h = ground arith

plain-not_space : (c : ℕ) → IsPlain c → is_space c ≡ false
unfolding is_slug_char is_space
plain-not_space c h = ground arith

IsLoose-All : (r : Bool) (s : Text) → IsLoose r s → All IsPlain s
IsLoose-All r [] h = tt
IsLoose-All r (c ∷ s) h = elim (Bool-cases (is_slug_char c)) [
  | inl e ↦ (inl e, IsLoose-All false s (rw e at h))
  | inr e ↦
      let (dash, _, rest) : (c ≡ b'-') × (r ≡ false) × IsLoose true s = rw e at h in
      (inr dash, IsLoose-All true s rest)
]

to_lower-plain : (table : ℕ → ℕ) (s : Text) → All IsPlain s → to_lower table s ≡ s
unfolding to_lower
to_lower-plain table [] h = refl
to_lower-plain table (c ∷ s) (p, h) = cc (plain-lower table c p, to_lower-plain table s h)

trim_right-plain : (s : Text) → All IsPlain s → trim_right is_space s ≡ s
unfolding trim_right
trim_right-plain [] h = refl
trim_right-plain (c ∷ s) (p, h) = ground (arith, plain-not_space c p, trim_right-plain s h)

trim_left-plain : (s : Text) → All IsPlain s → trim_left is_space s ≡ s
unfolding trim_left
trim_left-plain [] h = refl
trim_left-plain (c ∷ s) (p, h) = ground (arith, plain-not_space c p)

trim_space-plain : (s : Text) → All IsPlain s → trim_space s ≡ s
unfolding trim_space trim
trim_space-plain s h = rw (trim_left-plain s h) (trim_right-plain s h)

collapse-loose : (r : Bool) (s : Text) → IsLoose r s → collapse r s ≡ s
unfolding collapse
collapse-loose r [] h = refl
collapse-loose r (c ∷ s) h = elim (Bool-cases (is_slug_char c)) [
  | inl e ↦ rw (e, collapse) (ap (λ (t : Text). c ∷ t) (collapse-loose false s (rw e at h)))
  | inr e ↦
      let (dash, first, rest) : (c ≡ b'-') × (r ≡ false) × IsLoose true s = rw e at h in
      rw (e, first, collapse) (cc (dash, collapse-loose true s rest))
]

IsLoose-false : (s : Text) → IsLoose true s → IsLoose false s
IsLoose-false [] h = tt
IsLoose-false (c ∷ s) h = elim (Bool-cases (is_slug_char c)) [
  | inl e ↦ IsLoose-char false c s e (rw e at h)
  | inr e ↦
      let (dash, first, rest) : (c ≡ b'-') × (true ≡ false) × IsLoose true s = rw e at h in cc first
]

trim_left-loose : (s : Text) → IsLoose true s → trim_left is_dash s ≡ s
unfolding trim_left
trim_left-loose [] h = refl
trim_left-loose (c ∷ s) h = elim (Bool-cases (is_slug_char c)) [
  | inl e ↦ rw (slug_char-not_dash c e)
  | inr e ↦
      let (dash, first, rest) : (c ≡ b'-') × (true ≡ false) × IsLoose true s = rw e at h in cc first
]

trim_right-ends : (s : Text) → EndsWell s → trim_right is_dash s ≡ s
unfolding trim_right
trim_right-ends [] h = refl
trim_right-ends (c ∷ []) h = ground arith
trim_right-ends (c ∷ d ∷ s) h = let rest = trim_right-ends (d ∷ s) h in ground arith

-- A text that has the shape of a slug is its own slug.
pub slugify-slug : (lower_rune : ℕ → ℕ) (s : Text) → IsSlug s → slugify lower_rune s ≡ s
unfolding slugify trim
slugify-slug lower_rune s (loose, ends) =
    let plain = IsLoose-All true s loose in
    rw
      (
        trim_space-plain s plain,
        to_lower-plain lower_rune s plain,
        collapse-loose false s (IsLoose-false s loose),
        trim_left-loose s loose,
      )
      (trim_right-ends s ends)

-- Slugs are stable: the slug of a slug is that slug, for every name.
pub slugify_idem :
    (lower_rune : ℕ → ℕ) (name : Text)
    → slugify lower_rune (slugify lower_rune name) ≡ slugify lower_rune name
slugify_idem lower_rune name =
    slugify-slug lower_rune (slugify lower_rune name) (slugify-IsSlug lower_rune name)
