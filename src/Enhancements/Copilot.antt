-- ===== src/Enhancements/Copilot.antt =====
-- api/internal/enhancements/module.go: the seller's copilot, what it proposes and what it carries out.
-- strconv.ParseFloat and strings.ToUpper are arguments. Parameters of an action are a list of pairs.
pub mod Execution
use agentic_mudahurus.Shared.{
  ℕ, zero, suc, ◌+◌, Bool, true, false, Option, none, some, List, [], ◌∷◌, ◌++◌, not, ◌&&◌, ◌||◌,
  if◌then◌else◌, leb, ◌==◌, find, take, length, Text, codes, text_eq, is_empty, trim_space,
  has_prefix,
}
use agentic_mudahurus.Shared.Int.{ℤ, pos}
use agentic_mudahurus.Schema.{Uuid, Category, ProductRow, Product, OrderRow, Order}
use agentic_mudahurus.World.{
  Error, Result, ok, err, Env, Action, pure, raise, lift, require, try, map_error, statement,
  new_uuid, ◌>>=◌, ◌>>◌,
}
use agentic_mudahurus.Httpx.Errors.{bad_request, missing}
use agentic_mudahurus.Tenancy.Identity.{Context, tid}
use agentic_mudahurus.Catalog.Service as Catalog
use agentic_mudahurus.Catalog.Service.{ProductInput}
use agentic_mudahurus.Orders.Service as Orders
use agentic_mudahurus.Orders.Handler.{status_of}
use agentic_mudahurus.Enhancements.Router.{
  AgentKind, seller_copilot, storefront_assistant, fulfillment, AgentRequest, ProposedAction,
  Captures, route, parse_seller_command,
}
use agentic_mudahurus.Enhancements.Content.{ContentResult, generate}

-- act.Params[key], empty if it is not there
unfoldable pub param : Text → List (Text × Text) → Text
param key [] = []
param key ((k, v) ∷ params) = let rest = param key params in if text_eq k key then v else rest

-- uuidPtrToStr
abbrev pub uuid_or_blank : Env → Option Uuid → Text
uuid_or_blank env none = []
uuid_or_blank env (some id) = env.uuid_string id

-- ---- deriveSKU ----

abbrev pub is_sku_char : ℕ → Bool
is_sku_char c = leb b'A' c && leb c b'Z' || leb b'0' c && leb c b'9'

-- the loop over the runes, with room for `left` more characters
unfoldable pub sku_chars : ℕ → Text → Text
sku_chars zero s = []
sku_chars (suc left) [] = []
sku_chars (suc left) (c ∷ s) =
    let kept = sku_chars left s in
    let passed = sku_chars (suc left) s in if is_sku_char c then c ∷ kept else passed

abbrev pub sku_with : Text → Text → Text
sku_with [] drawn = codes "SKU" ++ take 6 drawn
sku_with (c ∷ s) drawn = (c ∷ s) ++ codes "-" ++ take 4 drawn

unfoldable pub derive_sku : Env → (Text → Text) → Text → Action Text
unfolding sku_chars
derive_sku env upper name = do
  id ← new_uuid env
  pure (sku_with (sku_chars 8 (upper (trim_space name))) (env.uuid_string id))

-- What an execution answers.
pub data Executed : Type 0 where
  created : Product → Executed
  repriced : Product → Executed
  advanced : Order → Executed
  generated : ContentResult → Executed

abbrev pub has_id_like : Env → (Text → Text → Bool) → Uuid → Text → OrderRow → Bool
has_id_like env like tenant target o =
    o.tenant_id == tenant && like (env.uuid_string o.id) (target ++ codes "%")

abbrev pub row_id : Option OrderRow → Option Uuid
row_id none = none
row_id (some o) = some o.id

abbrev pub unknown_order : Text → Error
unknown_order target = missing (codes "order not found for: " ++ target)

module _ (env : Env) (upper : Text → Text) (parse_float : Text → Option ℤ)
    (collates : Text → Text → Bool) where
  -- `price, _ := strconv.ParseFloat(…)`
  float_or_zero : Option ℤ → ℤ
  float_or_zero none = pos 0
  float_or_zero (some price) = price

  -- ListCategories gives an empty list beside an error, which is dropped.
  listed : Result (List Category) → List Category
  listed (ok cs) = cs
  listed (err e) = []

  new_category_id : Result Category → Text
  new_category_id (ok c) = env.uuid_string c.id
  new_category_id (err e) = []

  unfoldable pub found_or_created : Uuid → Text → Option Category → Action Text
  unfolding new_category_id
  found_or_created tenant name (some c) = pure (env.uuid_string c.id)
  found_or_created tenant name none = do
    made ← try (Catalog.create_category env tenant name [])
    pure (new_category_id made)

  -- `resolveOrCreateCategory`
  unfoldable pub resolve_or_create_category : Uuid → Text → Action Text
  unfolding listed found_or_created
  resolve_or_create_category tenant name = do
    cats ← try (Catalog.list_categories env collates tenant)
    found_or_created tenant name (find (λ c. env.equal_fold c.name name) (listed cats))

  -- `id::text LIKE target || '%'`, with the wildcards that the target may hold, is an argument.
  module _ (like : Text → Text → Bool) where
    unfoldable pub id_or_prefix : Uuid → Text → Option Uuid → Action Uuid
    id_or_prefix tenant target (some id) = pure id
    id_or_prefix tenant target none = do
      found ←
          map_error (λ e. unknown_order target)
            (statement env
              (λ k db. (ok (row_id (find (has_id_like env like tenant target) db.orders)), db)))
      require found (unknown_order target)

    -- `resolveOrderID`: an id, or else the first order of the tenant with that prefix
    unfoldable pub resolve_order_id : Uuid → Text → Action Uuid
    unfolding id_or_prefix
    resolve_order_id tenant target = id_or_prefix tenant target (env.parse_uuid target)

    -- `execAdvanceOrder`
    unfoldable pub exec_advance_order : Uuid → ProposedAction → Action Order
    unfolding resolve_order_id param
    exec_advance_order tenant act = do
      oid ← resolve_order_id tenant act.target
      if is_empty (param (codes "status") act.params)
          then raise (bad_request (codes "target status is required"))
          else pure tt
      Orders.update_status env tenant oid (status_of (param (codes "status") act.params))

  abbrev pub sku_or_derived : Text → Text → Action Text
  sku_or_derived sku name = if is_empty sku then derive_sku env upper name else pure sku

  abbrev pub category_wish : Uuid → Text → Action Text
  category_wish tenant name =
      if is_empty name then pure [] else resolve_or_create_category tenant name

  -- `execCreateProduct`
  unfoldable pub exec_create_product : Uuid → ProposedAction → Action Product
  unfolding float_or_zero param
  exec_create_product tenant act = do
    let name = param (codes "product_name") act.params
    sku ← sku_or_derived (param (codes "sku") act.params) name
    category ← category_wish tenant (trim_space (param (codes "category") act.params))
    Catalog.create_product env tenant (record {
      category_id = category;
      sku = sku;
      product_name = name;
      description = [];
      unit_price = float_or_zero (parse_float (param (codes "unit_price") act.params));
      url_slug = [];
      status = codes "active";
    })

  abbrev pub repriced_input : Product → ℤ → ProductInput
  repriced_input p price = record {
    category_id = uuid_or_blank env p.category_id;
    sku = p.sku;
    product_name = p.product_name;
    description = p.description;
    unit_price = price;
    url_slug = p.url_slug;
    status = p.status;
  }

  -- `execUpdatePrice`
  unfoldable pub exec_update_price : Uuid → ProposedAction → Action Product
  unfolding param
  exec_update_price tenant act = do
    price ←
        require (parse_float (param (codes "unit_price") act.params))
          (bad_request (codes "invalid unit_price"))
    existing ← Catalog.get_product_by_sku env tenant (param (codes "sku") act.params)
    Catalog.update_product env tenant existing.id (repriced_input existing price)

  abbrev pub then_answer : {A : Type 0} → (A → Executed) → Action A → Action Executed
  then_answer f m = m >>= λ a. pure (f a)

  -- `copilotExecute`
  unfoldable pub copilot_execute : (Text → Text → Bool) → Context → ProposedAction → Action Executed
  unfolding param
  copilot_execute like ctx act =
      if text_eq act.kind (codes "create_product")
      then then_answer created (exec_create_product (tid ctx) act)
      else if text_eq act.kind (codes "update_product_price")
      then then_answer repriced (exec_update_price (tid ctx) act)
      else if text_eq act.kind (codes "advance_order_status")
      then then_answer advanced (exec_advance_order like (tid ctx) act)
      else if text_eq act.kind (codes "generate_content")
      then pure (
          generated (
            generate env.lower_rune (record {
              product_name = param (codes "product_name") act.params;
              keywords = [];
              tone = [];
            })))
      else raise (bad_request (codes "unknown action kind: " ++ act.kind))

abbrev proposals_of : AgentKind → List ProposedAction → AgentKind × List ProposedAction
proposals_of storefront_assistant found = (storefront_assistant, [])
proposals_of kind found = (kind, found)

-- `copilotInterpret`: it only proposes
unfoldable pub copilot_interpret :
    Env → (Text → Captures) → (role message : Text) → AgentKind × List ProposedAction
copilot_interpret env capture role message =
    let req : AgentRequest = record {
      tenant_id = [];
      role = role;
      scope = codes "admin";
      message = message;
    } in
    proposals_of (route env.lower_rune req) (parse_seller_command env.lower_rune capture message)
