-- ===== src/Httpx/Paging.antt =====
-- api/internal/httpx/paginate.go, `ParsePage`. A query parameter that is absent is empty.
use agentic_mudahurus.Shared.{none, some, ◌||◌, if◌then◌else◌, Text, codes, is_empty}
use agentic_mudahurus.Shared.Int.{ℤ, pos, leb_ℤ, ltb_ℤ}
use agentic_mudahurus.Shared.Decimal.{atoi}

pub record Page : Type 0 where
  pub limit : ℤ
  pub offset : ℤ
  pub search : Text

-- `if v := …; v != "" { if n, err := strconv.Atoi(v); err == nil { … } }`
read_or : ℤ → Text → ℤ
read_or default v = if is_empty v then default else elim (atoi v) [ none ↦ default | some n ↦ n ]

module _ (query_param : Text → Text) where
  unfoldable pub parse_page : Page
  unfolding read_or
  parse_page =
      let per_page = read_or (pos 20) (query_param (codes "perPage")) in
      let limit = read_or per_page (query_param (codes "limit")) in
      let offset = read_or (pos 0) (query_param (codes "offset")) in
      let legacy = query_param (codes "queries[search]") in
      record {
        limit = if leb_ℤ limit (pos 0) || ltb_ℤ (pos 100) limit then pos 20 else limit;
        offset = if ltb_ℤ offset (pos 0) then pos 0 else offset;
        search = if is_empty legacy then query_param (codes "search") else legacy;
      }
