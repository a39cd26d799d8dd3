-- ===== src/Catalog/Slug.antt =====
-- api/internal/catalog/service.go, `slugify`. A run of characters that `[^a-z0-9]+` matches becomes
-- one dash.
pub mod Laws
use agentic_mudahurus.Shared.{
  ℕ, Bool, true, false, [], ◌∷◌, ◌&&◌, ◌||◌, leb, ◌==◌, Text, trim_space, trim, to_lower,
}

unfoldable pub is_slug_char : ℕ → Bool
is_slug_char c = leb b'a' c && leb c b'z' || leb b'0' c && leb c b'9'

abbrev pub is_dash : ℕ → Bool
is_dash c = c == b'-'

-- slugRe.ReplaceAllString(s, "-"); the flag says that a run has begun and its dash is written
unfoldable pub collapse : Bool → Text → Text
collapse started [] = []
collapse started (c ∷ s) = elim (is_slug_char c) [
  | true ↦ c ∷ collapse false s
  | false ↦ elim started [ true ↦ collapse true s | false ↦ b'-' ∷ collapse true s ]
]

unfoldable pub slugify : (ℕ → ℕ) → Text → Text
unfolding trim collapse is_slug_char to_lower trim_space
slugify lower_rune s = trim is_dash (collapse false (to_lower lower_rune (trim_space s)))
