-- ===== src/Harness/Tests.antt =====
-- gateway/app/execution_routing.py: three profiles, the cheapest of which is not reliable enough.
use magistrate.Prelude.{ℕ, String, ◌≡◌, refl, true, false, none, some, List, [], ◌∷◌, ◌==◌}
use magistrate.Prelude.Int.{pos}
use magistrate.Prelude.Outcome.{ok}
use magistrate.Harness.Select.{
  Strategy, ExecutionRequirements, Profile, HarnessRoute, all_read, satisfies, consider, eligible,
  compare_entries, smallest, choose, select, select_execution_profile,
}
use magistrate.Harness.Best.{Chosen, select-Chosen}

program : Unit {0}
unfolding all_read satisfies consider eligible compare_entries smallest choose select
    select_execution_profile
program = tt

abbrev profile : (id : String) → (reliability cost : ℕ) → Profile
profile id reliability cost = record {
  id = id;
  harness = "h";
  provider = "p";
  model = "m";
  variant = "v";
  verified = true;
  available = true;
  routing = some (record {
    reliability = some (pos reliability);
    estimated_cost = some (pos cost);
    reasoning = some (pos 3);
    context_tokens = some (pos 1000);
    latency_ms = some (pos 10);
    tools = true;
    multimodal = false;
  });
}

abbrev strategy : Strategy
strategy = record { min_reliability = pos 95; show = λ n. "usd"; equal = λ a b. a.id == b.id }

abbrev requirements : ExecutionRequirements
requirements = record {
  reasoning = pos 2;
  context_tokens = pos 500;
  tools = true;
  multimodal = false;
  max_latency_ms = some (pos 20);
  preferred_profile_id = none;
}

abbrev profiles : List Profile
profiles = profile "poor" 90 1 ∷ profile "dear" 99 5 ∷ profile "good" 97 3 ∷ []

abbrev good : HarnessRoute
good = record {
  profile_id = "good";
  harness = "h";
  provider = "p";
  model = "m";
  variant = "v";
  estimated_cost_usd = "usd";
}

select_test : select_execution_profile strategy none profiles requirements ≡ ok good
unfolding program
select_test = refl

select-Chosen_example : Chosen strategy requirements profiles good
unfolding program
select-Chosen_example = select-Chosen strategy profiles requirements {route = good} refl
