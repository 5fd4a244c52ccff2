-- ===== src/Routing/Select.antt =====
-- gateway/app/magi_routing.py: `RoutedMagiModel._eligible`, the candidates of a request in the order
-- in which they are tried.
use Prim.Native.Nat.{Ordering}
use Prim.Native.String.{compare}
use magistrate.Prelude.{
  ℕ, ◌+◌, ◌-◌, String, Bool, true, false, ◌&&◌, ◌||◌, not, Option, none, some, List, [], ◌∷◌, ◌++◌,
  ◌==◌, if◌then◌else◌, ltb, nat_eq,
}
use magistrate.Routing.Model.{
  RouteCategory, ModelRouteContext, ModelCandidate, BillingMode, RoutingCatalog, Decimal,
  estimated_cost, reasoning_required, is_high_impact,
}
use magistrate.Routing.Store.{Routes, credits_spent, reliability}

-- The catalog, whether the variable of a credential is set, which candidates have a model of their
-- own and which providers a factory, and the quotient of two counts as a decimal.
pub record Env : Type 0 where
  pub catalog : RoutingCatalog
  pub credential : String → Bool
  pub own_model : String → Bool
  pub factory : String → Bool
  pub quotient : ℕ → ℕ → Decimal

abbrev pub required_safety : RouteCategory → ℕ
required_safety category = if is_high_impact category then 4 else 1

abbrev pub is_registered : Env → ModelCandidate → Bool
is_registered env c =
    c.enabled
    && c.available
    && (env.credential c.credential_env || env.own_model c.id)
    && (env.factory c.provider || env.own_model c.id)

abbrev pub is_capable : Env → ModelRouteContext → (input_tokens : ℕ) → ModelCandidate → Bool
is_capable env context input c =
    not (ltb c.reasoning (reasoning_required context.category))
    && not (ltb c.safety_tier (required_safety context.category))
    && not (ltb c.context_tokens (input + env.catalog.policy.output_reservation_tokens))
    && not (context.requires_tools && not c.tools)
    && not (context.requires_multimodal && not c.multimodal)

abbrev pub estimate_of : Env → (input_tokens : ℕ) → ModelCandidate → ℕ
estimate_of env input c = estimated_cost c input env.catalog.policy.output_reservation_tokens

abbrev pub is_affordable : Env → (estimate : ℕ) → ModelCandidate → Routes → Bool
is_affordable env estimate c routes =
    not (elim c.credits_micro_usd [
      | none ↦ false
      | some limit ↦ ltb (limit - credits_spent c routes) estimate
    ])
    && not (ltb env.catalog.policy.per_request_budget_micro_usd estimate)

-- The tests that the loop over the catalog applies to a candidate.
unfoldable pub is_eligible :
    Env → ModelRouteContext → (input_tokens : ℕ) → Routes → ModelCandidate → Bool
is_eligible env context input routes c =
    is_registered env c
    && is_capable env context input c
    && not (ltb (reliability env.quotient c routes) env.catalog.policy.min_reliability)
    && is_affordable env (estimate_of env input c) c routes

unfoldable pub eligible_of :
    Env
    → ModelRouteContext
    → (input_tokens : ℕ) → Routes
    → List ModelCandidate
    → List (ModelCandidate × ℕ)
eligible_of env context input routes [] = []
eligible_of env context input routes (c ∷ cs) =
    let rest = eligible_of env context input routes cs in
    if is_eligible env context input routes c then (c, estimate_of env input c) ∷ rest else rest

abbrev pub names : Option String → String → Bool
names none s = false
names (some t) s = t == s

abbrev pub is_subscription : BillingMode → Bool
is_subscription BillingMode.subscription = true
is_subscription _ = false

-- What the candidates are sorted by.
pub record Key : Type 0 where
  pub marginal : ℕ
  pub preference : ℕ
  pub reliability : Decimal
  pub latency : ℕ
  pub id : String

unfoldable pub key_of : Env → ModelRouteContext → Routes → ModelCandidate × ℕ → Key
key_of env context routes (c, estimate) = record {
  marginal = if is_subscription c.billing_mode then 0 else estimate;
  preference =
      if names context.preferred_model c.model
      then 0
      else if names context.preferred_provider c.provider
      then 1
      else 2;
  reliability = reliability env.quotient c routes;
  latency = c.latency_ms;
  id = c.id;
}

abbrev pub text_before : String → String → Bool
text_before s t = elim (compare s t) [ Ordering.lt ↦ true | _ ↦ false ]

-- The order of the key tuples, in which a higher reliability comes first.
unfoldable pub before : Key → Key → Bool
before a b =
    ltb a.marginal b.marginal
    || nat_eq a.marginal b.marginal
      && (ltb a.preference b.preference
          || nat_eq a.preference b.preference
            && (ltb b.reliability a.reliability
                || nat_eq a.reliability b.reliability
                  && (ltb a.latency b.latency
                      || nat_eq a.latency b.latency && text_before a.id b.id)))

module _ {A : Type 0} (key : A → Key) where
  -- The library's sort is stable: an item stays before those that it is not after.
  unfoldable pub insert_sorted : A → List A → List A
  insert_sorted x [] = x ∷ []
  insert_sorted x (y ∷ ys) = if before (key y) (key x) then y ∷ insert_sorted x ys else x ∷ y ∷ ys

  unfoldable pub sorted : List A → List A
  sorted [] = []
  sorted (x ∷ xs) = insert_sorted x (sorted xs)

abbrev pub in_class : String → ModelCandidate × ℕ → Bool
in_class class (c, estimate) = c.capability_class == class

unfoldable pub keep :
    (ModelCandidate × ℕ → Bool) → List (ModelCandidate × ℕ) → List (ModelCandidate × ℕ)
keep p [] = []
keep p (x ∷ xs) = if p x then x ∷ keep p xs else keep p xs

-- Candidates of the class of the first come before all others.
unfoldable pub primary_first : List (ModelCandidate × ℕ) → List (ModelCandidate × ℕ)
primary_first [] = []
primary_first ((c, estimate) ∷ xs) =
    keep (in_class c.capability_class) ((c, estimate) ∷ xs)
    ++ keep (λ x. not (in_class c.capability_class x)) ((c, estimate) ∷ xs)

unfoldable pub eligible :
    Env → ModelRouteContext → (input_tokens : ℕ) → Routes → List (ModelCandidate × ℕ)
eligible env context input routes = primary_first (
    sorted (key_of env context routes)
      (eligible_of env context input routes env.catalog.candidates))
