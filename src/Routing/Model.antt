-- ===== src/Routing/Model.antt =====
-- gateway/app/magi_routing.py: candidates, policy and costs, and the class of a turn. Prices and
-- budgets are micros of a US dollar. A decimal of [0, 1] is a count of a unit that is fine enough
-- for every decimal in use. Token counts are not negative.
use magistrate.Prelude.{
  ℕ, ◌+◌, ◌-◌, ◌*◌, ◌/◌, String, Bool, true, false, ◌&&◌, Option, List, [], ◌∷◌, if◌then◌else◌, ltb,
}

pub data RouteCategory : Type 0 where
  direct_conversation read_only_investigation execution : RouteCategory
  decision_response high_impact_action : RouteCategory

pub record ModelRouteContext : Type 0 where
  pub owner_user_id : String
  pub category : RouteCategory
  pub permission_granted : Bool
  pub explicit_confirmation : Bool
  pub context_tokens : ℕ
  pub requires_tools : Bool
  pub requires_multimodal : Bool
  pub preferred_provider : Option String
  pub preferred_model : Option String

abbrev pub Decimal : Type 0
Decimal = ℕ

pub data BillingMode : Type 0 where
  metered subscription credits : BillingMode

pub record ModelCandidate : Type 0 where
  pub id : String
  pub provider : String
  pub model : String
  pub credential_env : String
  pub base_url : Option String
  pub capability_class : String
  pub reasoning : ℕ
  pub context_tokens : ℕ
  pub tools : Bool
  pub multimodal : Bool
  pub reliability : Decimal
  pub latency_ms : ℕ
  pub input_micro_usd_per_million : ℕ
  pub output_micro_usd_per_million : ℕ
  pub cached_input_micro_usd_per_million : ℕ
  pub billing_mode : BillingMode
  pub plan : Option String
  pub credits_micro_usd : Option ℕ
  pub enabled : Bool
  pub available : Bool
  pub safety_tier : ℕ
  pub max_output_tokens : ℕ

pub record MagiModelUsage : Type 0 where
  pub input_tokens : ℕ
  pub output_tokens : ℕ
  pub cached_input_tokens : ℕ

unfoldable pub estimated_cost : ModelCandidate → (input_tokens output_tokens : ℕ) → ℕ
estimated_cost c input output =
    (input * c.input_micro_usd_per_million + output * c.output_micro_usd_per_million + 999_999)
    / 1_000_000

-- `max(0, input - cached)` is the subtraction of the natural numbers.
unfoldable pub actual_cost : ModelCandidate → MagiModelUsage → ℕ
actual_cost c u =
    ((u.input_tokens - u.cached_input_tokens) * c.input_micro_usd_per_million
      + u.cached_input_tokens * c.cached_input_micro_usd_per_million
      + u.output_tokens * c.output_micro_usd_per_million
      + 999_999)
    / 1_000_000

pub record RoutingPolicy : Type 0 where
  pub monthly_budget_micro_usd : ℕ
  pub per_request_budget_micro_usd : ℕ
  pub output_reservation_tokens : ℕ
  pub min_reliability : Decimal
  pub max_same_model_retries : ℕ
  pub max_automatic_fallback_micro_usd : ℕ

pub record RoutingCatalog : Type 0 where
  pub candidates : List ModelCandidate
  pub policy : RoutingPolicy

unfoldable pub reasoning_required : RouteCategory → ℕ
reasoning_required RouteCategory.direct_conversation = 1
reasoning_required RouteCategory.read_only_investigation = 2
reasoning_required RouteCategory.execution = 3
reasoning_required RouteCategory.decision_response = 3
reasoning_required RouteCategory.high_impact_action = 4

abbrev pub is_direct : RouteCategory → Bool
is_direct RouteCategory.direct_conversation = true
is_direct _ = false

abbrev pub is_high_impact : RouteCategory → Bool
is_high_impact RouteCategory.high_impact_action = true
is_high_impact _ = false

-- The three patterns of the classification; how they are searched is a parameter.
pub data Pattern : Type 0 where
  high_impact read_only execution : Pattern

unfoldable pub requires_high_impact_confirmation : (Pattern → String → Bool) → String → Bool
requires_high_impact_confirmation search content = search Pattern.high_impact content

unfoldable pub classify_turn :
    (Pattern → String → Bool)
    → (content : String) → (command_authorized decision_bound : Bool) → RouteCategory
classify_turn search content authorized bound =
    if bound
    then RouteCategory.decision_response
    else if authorized && requires_high_impact_confirmation search content
    then RouteCategory.high_impact_action
    else if authorized && search Pattern.read_only content
    then RouteCategory.read_only_investigation
    else if authorized && search Pattern.execution content
    then RouteCategory.execution
    else RouteCategory.direct_conversation

-- The lengths of a message's text, of the arguments of its tool calls and of its attachments.
pub record MessageSize : Type 0 where
  pub content : ℕ
  pub tool_calls : List ℕ
  pub attachments : List ℕ

-- The lengths of a tool's description and of its parameters as compact JSON.
pub record ToolSize : Type 0 where
  pub description : ℕ
  pub parameters : ℕ

unfoldable pub sum : List ℕ → ℕ
sum [] = 0
sum (n ∷ ns) = n + sum ns

-- Attachments are sent in base64.
unfoldable pub encoded : List ℕ → ℕ
encoded [] = 0
encoded (n ∷ ns) = (n * 4 + 2) / 3 + encoded ns

unfoldable pub message_characters : List MessageSize → ℕ
message_characters [] = 0
message_characters (m ∷ ms) =
    m.content + sum m.tool_calls + encoded m.attachments + message_characters ms

unfoldable pub tool_characters : List ToolSize → ℕ
tool_characters [] = 0
tool_characters (t ∷ ts) = t.description + t.parameters + tool_characters ts

abbrev pub max : ℕ → ℕ → ℕ
max a b = if ltb a b then b else a

unfoldable pub estimate_input_tokens : List MessageSize → (system_context : ℕ) → List ToolSize → ℕ
estimate_input_tokens messages system tools =
    max 1 ((system + message_characters messages + tool_characters tools + 3) / 4)
