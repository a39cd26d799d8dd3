-- ===== src/Server/Links.antt =====
-- The links to stored files: what the storage signs, the server serves.
use agentic_mudahurus.Shared.{
  ℕ, suc, ◌==◌, ◌||◌, if◌then◌else◌, [], All, drop, length, ◌≡◌, true, ◌∷◌, Text,
}
use agentic_mudahurus.Storage.{is_safe}

-- ---- what a client makes of a link ----

-- up to the first character `c`, and behind it
abbrev before : ℕ → Text → Text
before c [] = []
before c (x ∷ s) = let rest = before c s in if x == c then [] else x ∷ rest

abbrev behind : ℕ → Text → Text
behind c [] = []
behind c (x ∷ s) = let rest = behind c s in if x == c then s else rest

-- The key, the signature and the expiry of the request that a client sends for a link: the path below
-- the base, and the query behind the question mark, with `exp=` first and `sig=` behind it.
unfoldable pub requested : (base url : Text) → Text × Text × Text
requested base url =
    let path = drop (suc (length base)) url in
    let query = behind b'?' path in
    (before b'?' path, drop 4 (behind b'&' query), drop 4 (before b'&' query))

-- Letters, digits, dots, dashes, underscores and slashes, as in the keys that the storage makes.
abbrev pub IsPlain : Text → Type 0
IsPlain key = All (λ c. (is_safe c || c == b'/') ≡ true) key
