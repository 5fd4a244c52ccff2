-- ===== src/Harness/Select.antt =====
-- gateway/app/execution_routing.py: requirements, profiles and `CheapestReliableHarnessStrategy`. A decimal
-- is a count of a unit that is fine enough for every decimal in use, and finite.
use Prim.Native.Nat.{Ordering}
use Prim.Native.String.{compare}
use magistrate.Prelude.{
  ℕ, String, Bool, false, ◌&&◌, ◌||◌, not, Option, none, some, List, [], ◌∷◌, ◌==◌, if◌then◌else◌,
  ltb,
}
use magistrate.Prelude.Int.{ℤ, pos, ltb_ℤ}
use magistrate.Prelude.Outcome.{Outcome, err, ok, ◌>>=◌}

pub record ExecutionRequirements : Type 0 where
  pub reasoning : ℤ
  pub context_tokens : ℤ
  pub tools : Bool
  pub multimodal : Bool
  pub max_latency_ms : Option ℤ
  pub preferred_profile_id : Option String

pub record HarnessRoute : Type 0 where
  pub profile_id : String
  pub harness : String
  pub provider : String
  pub model : String
  pub variant : String
  pub estimated_cost_usd : String

-- The dictionary under "routing": a number is none where it is missing or no number can be read,
-- and a flag holds only for the value `True`.
pub record RouteFacts : Type 0 where
  pub reliability : Option ℤ
  pub estimated_cost : Option ℤ
  pub reasoning : Option ℤ
  pub context_tokens : Option ℤ
  pub latency_ms : Option ℤ
  pub tools : Bool
  pub multimodal : Bool

-- A profile of the inventory; its routing is none where it is no dictionary.
pub record Profile : Type 0 where
  pub id : String
  pub harness : String
  pub provider : String
  pub model : String
  pub variant : String
  pub verified : Bool
  pub available : Bool
  pub routing : Option RouteFacts

-- The numbers of a profile, all of which could be read.
pub record Facts : Type 0 where
  pub reliability : ℤ
  pub estimated_cost : ℤ
  pub reasoning : ℤ
  pub context_tokens : ℤ
  pub latency_ms : ℤ

-- `min_reliability`, `f"{cost:.6f}"`, and the equality of two dictionaries.
pub record Strategy : Type 0 where
  pub min_reliability : ℤ
  pub show : ℤ → String
  pub equal : Profile → Profile → Bool

unfoldable pub all_read : (reliability cost reasoning context latency : Option ℤ) → Option Facts
all_read (some reliability) (some cost) (some reasoning) (some context) (some latency) =
    some (record {
      reliability = reliability;
      estimated_cost = cost;
      reasoning = reasoning;
      context_tokens = context;
      latency_ms = latency;
    })
all_read _ _ _ _ _ = none

abbrev pub facts_of : RouteFacts → Option Facts
facts_of r = all_read r.reliability r.estimated_cost r.reasoning r.context_tokens r.latency_ms

abbrev pub too_slow : Option ℤ → ℤ → Bool
too_slow none latency = false
too_slow (some most) latency = ltb_ℤ most latency

-- The tests of the loop, for a profile whose numbers could be read.
unfoldable pub satisfies : Strategy → ExecutionRequirements → RouteFacts → Facts → Bool
satisfies s q r f =
    not (ltb_ℤ f.reliability s.min_reliability || ltb_ℤ f.estimated_cost (pos 0))
    && not (ltb_ℤ f.reasoning q.reasoning || ltb_ℤ f.context_tokens q.context_tokens)
    && not (q.tools && not r.tools)
    && not (q.multimodal && not r.multimodal)
    && not (too_slow q.max_latency_ms f.latency_ms)

-- What the eligible profiles are compared by.
pub record Entry : Type 0 where
  pub cost : ℤ
  pub preference : ℕ
  pub latency : ℤ
  pub profile : Profile

abbrev pub prefers : Option String → String → Bool
prefers none id = false
prefers (some s) id = id == s

abbrev pub entry_of : ExecutionRequirements → Profile → Facts → Entry
entry_of q p f = record {
  cost = f.estimated_cost;
  preference = if prefers q.preferred_profile_id p.id then 0 else 1;
  latency = f.latency_ms;
  profile = p;
}

-- The entry of a profile, if it is eligible.
unfoldable pub consider : Strategy → ExecutionRequirements → Profile → Option Entry
consider s q p = if not p.verified || not p.available then none else elim p.routing [
  | none ↦ none
  | some r ↦ elim (facts_of r) [
    | none ↦ none
    | some f ↦ if satisfies s q r f then some (entry_of q p f) else none
  ]
]

unfoldable pub eligible : Strategy → ExecutionRequirements → List Profile → List Entry
eligible s q [] = []
eligible s q (p ∷ ps) =
    let rest = eligible s q ps in elim (consider s q p) [ none ↦ rest | some e ↦ e ∷ rest ]

pub data SelectError : Type 0 where
  no_profile : SelectError
  -- Two dictionaries were compared by their order.
  type_error : SelectError

pub data Compared : Type 0 where
  smaller not_smaller no_order : Compared

abbrev pub text_order : String → String → Compared → Compared
text_order a b tie = elim (compare a b) [
  | Ordering.lt ↦ Compared.smaller
  | Ordering.eq ↦ tie
  | Ordering.gt ↦ Compared.not_smaller
]

-- Whether the tuple of `a` is smaller than that of `b`.
unfoldable pub compare_entries : Strategy → Entry → Entry → Compared
compare_entries s a b =
    if ltb_ℤ a.cost b.cost
    then Compared.smaller
    else if ltb_ℤ b.cost a.cost
    then Compared.not_smaller
    else if ltb a.preference b.preference
    then Compared.smaller
    else if ltb b.preference a.preference
    then Compared.not_smaller
    else if ltb_ℤ a.latency b.latency
    then Compared.smaller
    else if ltb_ℤ b.latency a.latency
    then Compared.not_smaller
    else text_order a.profile.id b.profile.id
        (if s.equal a.profile b.profile then Compared.not_smaller else Compared.no_order)

-- `min`: the first of the smallest.
unfoldable pub smallest : Strategy → Entry → List Entry → Outcome SelectError Entry
smallest s best [] = ok best
smallest s best (e ∷ es) = elim (compare_entries s e best) [
  | Compared.smaller ↦ smallest s e es
  | Compared.not_smaller ↦ smallest s best es
  | Compared.no_order ↦ err type_error
]

abbrev pub route_of : Strategy → Entry → HarnessRoute
route_of s e = record {
  profile_id = e.profile.id;
  harness = e.profile.harness;
  provider = e.profile.provider;
  model = e.profile.model;
  variant = e.profile.variant;
  estimated_cost_usd = s.show e.cost;
}

unfoldable pub choose : Strategy → List Entry → Outcome SelectError Entry
choose s [] = err no_profile
choose s (e ∷ es) = smallest s e es

unfoldable pub select :
    Strategy → List Profile → ExecutionRequirements → Outcome SelectError HarnessRoute
select s profiles q = do e ← choose s (eligible s q profiles); ok (route_of s e)

-- `select_execution_profile`
unfoldable pub select_execution_profile :
    (default : Strategy)
    → Option Strategy
    → List Profile
    → ExecutionRequirements
    → Outcome SelectError HarnessRoute
select_execution_profile default none profiles q = select default profiles q
select_execution_profile default (some s) profiles q = select s profiles q
