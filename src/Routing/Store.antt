-- ===== src/Routing/Store.antt =====
-- gateway/app/magi_routing.py: `ModelRouteStore`, the ledger of routes with its reservations.
use magistrate.Prelude.{
  ℕ, ◌+◌, String, Bool, true, false, ◌&&◌, ◌||◌, nat_eq, not, Option, none, some, ◌∷◌, ◌==◌,
  if◌then◌else◌, leb, ltb, is_some,
}
use magistrate.Prelude.Outcome.{Outcome, ok, ◌>>◌, raise_if}
use magistrate.Prelude.Tables.{Table, lookup, find_row, update, total}
use magistrate.Routing.Model.{
  RouteCategory, ModelRouteContext, ModelCandidate, MagiModelUsage, Decimal,
}

-- `MagiModelError`: its code, and what a caller may do about it.
pub record MagiModelError : Type 0 where
  pub code : String
  pub retryable : Bool
  pub tool_calls : ℕ
  pub billing_uncertain : Bool

abbrev pub final_error : String → MagiModelError
final_error code = record {
  code = code;
  retryable = false;
  tool_calls = 0;
  billing_uncertain = false;
}

pub data RouteState : Type 0 where
  reserved succeeded failed : RouteState

-- A row of `magi_model_routes`; its id is the key of the table.
pub record Route : Type 0 where
  pub owner_user_id : String
  pub request_id : String
  pub category : RouteCategory
  pub provider_id : String
  pub model_id : String
  pub capability_class : String
  pub attempt_ordinal : ℕ
  pub fallback_from : Option String
  pub state : RouteState
  pub estimated_cost : ℕ
  pub actual_cost : Option ℕ
  pub budget_charge : ℕ
  pub input_tokens : Option ℕ
  pub output_tokens : Option ℕ
  pub error_code : Option String
  pub created_at : ℕ
  pub updated_at : ℕ

abbrev pub Routes : Type 0
Routes = Table Route

-- The rows of an owner from a time on; every state of the table is among those that are counted.
abbrev pub charge_since : (owner : String) → (start : ℕ) → Route → ℕ
charge_since owner start r =
    if r.owner_user_id == owner && leb start r.created_at then r.budget_charge else 0

unfoldable pub spent_since : (owner : String) → (start : ℕ) → Routes → ℕ
spent_since owner start = total (charge_since owner start)

abbrev pub is_model : ModelCandidate → Route → Bool
is_model c r = r.provider_id == c.provider && r.model_id == c.model

unfoldable pub credits_spent : ModelCandidate → Routes → ℕ
credits_spent c = total (λ r. if is_model c r then r.budget_charge else 0)

abbrev pub over_credits : ModelCandidate → (estimate : ℕ) → Routes → Bool
over_credits c estimate routes = elim c.credits_micro_usd [
  | none ↦ false
  | some limit ↦ ltb limit (credits_spent c routes + estimate)
]

abbrev pub reservation :
    ModelRouteContext
    → (request_id : String) → ModelCandidate
    → (ordinal estimate : ℕ) → (fallback_from : Option String) → (now : ℕ) → Route
reservation context request_id c ordinal estimate fallback now = record {
  owner_user_id = context.owner_user_id;
  request_id = request_id;
  category = context.category;
  provider_id = c.provider;
  model_id = c.model;
  capability_class = c.capability_class;
  attempt_ordinal = ordinal;
  fallback_from = fallback;
  state = RouteState.reserved;
  estimated_cost = estimate;
  actual_cost = none;
  budget_charge = estimate;
  input_tokens = none;
  output_tokens = none;
  error_code = none;
  created_at = now;
  updated_at = now;
}

-- UNIQUE(owner_user_id, request_id, attempt_ordinal)
abbrev pub is_attempt : (owner request_id : String) → (ordinal : ℕ) → Route → Bool
is_attempt owner request_id ordinal r =
    r.owner_user_id == owner && r.request_id == request_id && nat_eq r.attempt_ordinal ordinal

abbrev pub is_taken :
    (owner request_id : String) → (ordinal : ℕ) → (route_id : String) → Routes → Bool
is_taken owner request_id ordinal route_id routes =
    is_some (lookup route_id routes)
    || is_some (find_row (is_attempt owner request_id ordinal) routes)

-- `reserve`, with the random id, the clock's reading and the start of its month as arguments.
unfoldable pub reserve :
    ModelRouteContext
    → (request_id : String) → ModelCandidate
    → (ordinal estimate budget : ℕ) → (fallback_from : Option String) → (route_id : String)
    → (now month_start : ℕ) → Routes
    → Outcome MagiModelError Routes
reserve context request_id c ordinal estimate budget fallback route_id now month_start routes = do
  raise_if (ltb budget (spent_since context.owner_user_id month_start routes + estimate))
      (final_error "model_budget_exhausted")
  raise_if (over_credits c estimate routes) (final_error "model_credits_exhausted")
  raise_if (is_taken context.owner_user_id request_id ordinal route_id routes)
      (final_error "integrity_error")
  ok ((route_id, reservation context request_id c ordinal estimate fallback now) ∷ routes)

abbrev pub is_reserved : RouteState → Bool
is_reserved RouteState.reserved = true
is_reserved _ = false

-- What a settled attempt is charged.
unfoldable pub charge_of : (actual : Option ℕ) → (uncertain : Bool) → (estimate : ℕ) → ℕ
charge_of (some n) uncertain estimate = n
charge_of none uncertain estimate = if uncertain then estimate else 0

abbrev pub settled :
    Option MagiModelUsage
    → (actual : Option ℕ) → Option MagiModelError
    → (uncertain : Bool) → (now : ℕ) → Route
    → Route
settled usage actual error uncertain now r =
    if is_reserved r.state
    then record r {
      state = elim error [ none ↦ RouteState.succeeded | some e ↦ RouteState.failed ];
      actual_cost = actual;
      budget_charge = charge_of actual uncertain r.estimated_cost;
      input_tokens = elim usage [ none ↦ none | some u ↦ some u.input_tokens ];
      output_tokens = elim usage [ none ↦ none | some u ↦ some u.output_tokens ];
      error_code = elim error [ none ↦ none | some e ↦ some e.code ];
      updated_at = now;
    }
    else r

-- `settle`: only a row that is still reserved changes.
unfoldable pub settle :
    (route_id : String)
    → Option MagiModelUsage
    → (actual : Option ℕ) → Option MagiModelError
    → (uncertain : Bool) → (now : ℕ) → Routes
    → Routes
settle route_id usage actual error uncertain now routes =
    update route_id (settled usage actual error uncertain now) routes

abbrev pub is_finished : ModelCandidate → Route → ℕ
is_finished c r = if is_model c r && not (is_reserved r.state) then 1 else 0

abbrev pub is_succeeded : RouteState → Bool
is_succeeded RouteState.succeeded = true
is_succeeded _ = false

abbrev pub is_success : ModelCandidate → Route → ℕ
is_success c r = if is_model c r && is_succeeded r.state then 1 else 0

abbrev pub min : ℕ → ℕ → ℕ
min a b = if ltb b a then b else a

-- `reliability`; `quotient` divides two counts as decimals.
unfoldable pub reliability : (quotient : ℕ → ℕ → Decimal) → ModelCandidate → Routes → Decimal
reliability quotient c routes =
    let finished = total (is_finished c) routes in
    if ltb finished 5
    then c.reliability
    else min c.reliability (quotient (total (is_success c) routes) finished)
