-- ===== src/Enhancements/Router.antt =====
-- api/internal/enhancements/eh1_orchestration.go. What the regular expressions capture are arguments: for
-- each, none or the groups of its first match.
use agentic_mudahurus.Shared.{
  Bool, false, Option, none, some, List, [], ◌∷◌, ◌++◌, ◌&&◌, if◌then◌else◌, any, Text, codes,
  text_eq, contains, to_lower, trim_space, is_empty, has_prefix, ℕ,
}
use agentic_mudahurus.World.{Result, ok}

pub data AgentKind : Type 0 where
  seller_copilot storefront_assistant fulfillment : AgentKind

pub record AgentRequest : Type 0 where
  pub tenant_id : Text
  pub role : Text
  pub scope : Text
  pub message : Text

pub record ProposedAction : Type 0 where
  pub kind : Text
  pub target : Text
  pub params : List (Text × Text)

pub record AgentResponse : Type 0 where
  pub agent : AgentKind
  pub answer : Text
  pub actions : List ProposedAction
  pub grounded : Bool

-- `containsAny`
unfoldable pub contains_any : Text → List Text → Bool
contains_any s subs = any (contains s) subs

abbrev pub fulfillment_words : List Text
fulfillment_words =
    codes "track" ∷ codes "shipping" ∷ codes "deliver" ∷ codes "poslaju" ∷ codes "status" ∷ []

abbrev pub copilot_words : List Text
copilot_words =
    codes "add"
    ∷ codes "tambah"
    ∷ codes "create"
    ∷ codes "update"
    ∷ codes "change"
    ∷ codes "tukar"
    ∷ codes "set price"
    ∷ codes "set the price"
    ∷ codes "edit"
    ∷ codes "advance"
    ∷ codes "price"
    ∷ codes "harga"
    ∷ codes "generate"
    ∷ codes "draft"
    ∷ []

-- What the six expressions captured in the trimmed message.
pub record Captures : Type 0 where
  pub add_product : Option (Text × Text)
  pub set_price : Option (Text × Text)
  pub category : Option Text
  pub sku : Option Text
  pub advance_order : Option (Text × Text)
  pub gen_content : Option Text

module _ (lower_rune : ℕ → ℕ) where
  -- `Route`
  unfoldable pub route : AgentRequest → AgentKind
  unfolding contains_any
  route req =
      let msg = to_lower lower_rune req.message in
      if text_eq req.scope (codes "storefront")
      then storefront_assistant
      else if contains_any msg fulfillment_words
      then fulfillment
      else if text_eq req.role (codes "seller") && contains_any msg copilot_words
      then seller_copilot
      else storefront_assistant

  -- `Dispatch`: the agents that the router was made with, if any of the kind
  unfoldable pub dispatch :
      (AgentKind → Option (AgentRequest → Result AgentResponse))
      → AgentRequest
      → Result AgentResponse
  unfolding route
  dispatch agents req = elim (agents (route req)) [
    | some handle ↦ handle req
    | none ↦ ok (record {
      agent = route req;
      answer = codes "agent not enabled";
      actions = [];
      grounded = false;
    })
  ]

  -- the characters before the first occurrence of `sub` in the lower-cased text; all, if there is none
  before_word : Text → Text → Text
  before_word sub [] = []
  before_word sub (c ∷ s) =
      let rest = before_word sub s in
      if has_prefix (to_lower lower_rune (c ∷ s)) sub then [] else c ∷ rest

  cut_all : List Text → Text → Text
  unfolding before_word
  cut_all [] name = name
  cut_all (kw ∷ kws) name = cut_all kws (before_word kw name)

  -- `stripTrailers`, where lower-casing keeps the length in bytes
  unfoldable pub strip_trailers : Text → Text
  unfolding cut_all
  strip_trailers name = trim_space (
      cut_all (codes " category " ∷ codes " categori " ∷ codes " sku " ∷ codes " kategori " ∷ [])
        name)

  maybe_param : Text → Option Text → List (Text × Text) → List (Text × Text)
  maybe_param key none params = params
  maybe_param key (some v) params = params ++ (key, v) ∷ []

  trimmed : Option Text → Option Text
  trimmed none = none
  trimmed (some s) = some (trim_space s)

  status_wish : Text → Text → Text
  status_wish msg to =
      if is_empty to && contains (to_lower lower_rune msg) (codes "ship")
      then codes "shipped"
      else to

  generated : Option Text → List ProposedAction
  generated none = []
  generated (some name) =
      record {
        kind = codes "generate_content";
        target = [];
        params = (codes "product_name", trim_space name) ∷ [];
      }
      ∷ []

  advanced : Text → Option (Text × Text) → List ProposedAction → List ProposedAction
  unfolding status_wish
  advanced msg none otherwise = otherwise
  advanced msg (some (order, to)) otherwise =
      record {
        kind = codes "advance_order_status";
        target = order;
        params = (codes "status", status_wish msg to) ∷ [];
      }
      ∷ []

  repriced : Option (Text × Text) → List ProposedAction → List ProposedAction
  repriced none otherwise = otherwise
  repriced (some (sku, price)) otherwise =
      record {
        kind = codes "update_product_price";
        target = sku;
        params = (codes "sku", sku) ∷ (codes "unit_price", price) ∷ [];
      }
      ∷ []

  added : Captures → Option (Text × Text) → List ProposedAction → List ProposedAction
  unfolding maybe_param trimmed strip_trailers
  added found none otherwise = otherwise
  added found (some (name, price)) otherwise =
      record {
        kind = codes "create_product";
        target = [];
        params = maybe_param (codes "sku") found.sku (
            maybe_param (codes "category") (trimmed found.category) (
              (codes "product_name", trim_space (strip_trailers name))
              ∷ (codes "unit_price", price)
              ∷ []));
      }
      ∷ []

  -- `ParseSellerCommand`: the first intent that matches
  unfoldable pub parse_seller_command : (Text → Captures) → Text → List ProposedAction
  unfolding generated advanced repriced added
  parse_seller_command capture message =
      let msg = trim_space message in
      let found = capture msg in
      added found found.add_product
        (repriced found.set_price (advanced msg found.advance_order (generated found.gen_content)))
