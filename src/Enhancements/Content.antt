-- ===== src/Enhancements/Content.antt =====
-- api/internal/enhancements/eh4_ai_content.go
use agentic_mudahurus.Shared.{
  ℕ, List, [], ◌∷◌, ◌++◌, if◌then◌else◌, Text, codes, to_lower, is_empty,
}
use agentic_mudahurus.World.{Result, ok, err}
use agentic_mudahurus.Httpx.Errors.{bad_request}
use agentic_mudahurus.Enhancements.Router.{contains_any}

pub record ContentRequest : Type 0 where
  pub product_name : Text
  pub keywords : List Text
  pub tone : Text

pub record ContentResult : Type 0 where
  pub description : Text
  pub seo_title : Text
  pub seo_meta : Text
  pub suggested_category : Text

-- strings.Join(keywords, ", ")
joined : List Text → Text
joined [] = []
joined (k ∷ []) = k
joined (k ∷ l ∷ ks) = k ++ codes ", " ++ joined (l ∷ ks)

module _ (lower_rune : ℕ → ℕ) where
  -- `suggestCategory`
  unfoldable pub suggest_category : Text → Text
  unfolding contains_any
  suggest_category name =
      let n = to_lower lower_rune name in
      if contains_any n (codes "kuih" ∷ codes "kek" ∷ codes "cake" ∷ codes "biskut" ∷ [])
      then codes "Makanan"
      else if contains_any n (codes "teh" ∷ codes "kopi" ∷ codes "air" ∷ codes "drink" ∷ [])
      then codes "Minuman"
      else if contains_any n (codes "baju" ∷ codes "shirt" ∷ codes "tudung" ∷ [])
      then codes "Pakaian"
      else codes "Lain-lain"

  -- `TemplateContentGenerator.Generate`, which does not fail
  unfoldable pub generate : ContentRequest → ContentResult
  unfolding joined suggest_category
  generate req =
      let kw = joined req.keywords in
      record {
        description = codes "Produk " ++ req.product_name ++ codes " berkualiti. " ++ kw;
        seo_title = req.product_name ++ codes " | Beli dalam talian";
        seo_meta = codes "Beli " ++ req.product_name ++ codes " — " ++ kw;
        suggested_category = suggest_category req.product_name;
      }

  -- module.go, `generateContent`
  unfoldable pub generate_content : ContentRequest → Result ContentResult
  unfolding generate
  generate_content req =
      if is_empty req.product_name
      then err (bad_request (codes "product_name is required"))
      else ok (generate req)
