-- ===== src/Routing/Tests.antt =====
-- gateway/app/magi_routing.py: a request whose first model fails and whose second answers.
use mathlib.Core.Path.{subst}
use magistrate.Prelude.{
  ◌≢◌, ap, if_ind, Bool-cases, inl, inr, Bool, ◌==◌, ℕ, ◌+◌, ◌*◌, ◌≤◌, String, ◌≡◌, refl, true,
  false, ◌&&◌, none, some, [], ◌∷◌, arith, ltb, nat_eq, if◌then◌else◌,
}
use magistrate.Prelude.Outcome.{Outcome, Outcome-cases, err, ok}
use magistrate.Prelude.Tables.{lookup, find_row, update, total}
use magistrate.Routing.Model.{
  Pattern, RouteCategory, ModelRouteContext, ModelCandidate, BillingMode, RoutingPolicy,
  MagiModelUsage, estimated_cost, actual_cost, reasoning_required, estimate_input_tokens,
  message_characters, tool_characters, sum, encoded, requires_high_impact_confirmation,
  classify_turn,
}
use magistrate.Routing.Store.{
  MagiModelError, Routes, reservation, reserve, settle, spent_since, credits_spent, reliability,
  charge_of,
}
use magistrate.Routing.Select.{
  Env, is_eligible, eligible_of, key_of, before, insert_sorted, sorted, keep, primary_first,
  eligible, estimate_of,
}
use magistrate.Routing.Failover.{
  Reply, answer, model_error, cancelled, World, Request, call_provider, must_raise, settle_reply,
  react, attempts, proceed, candidates_from, complete_routed, complete, estimated_input,
}
use magistrate.Routing.Ledger.{Booked, reserve-rows, reserve-Booked}
use magistrate.Routing.Order.{tally, better_than, tally-eligible, tally-eligible_head}
use magistrate.Routing.Effects.{IsOwn, open_count, complete_routed-open_count}
use magistrate.Routing.Budget.{complete_routed-IsWithin}
use magistrate.Routing.Authority.{complete_routed-authorized}
use magistrate.Routing.Bound.{count, length, count-complete_routed}

program : Unit {0}
unfolding lookup find_row update total estimated_cost actual_cost reasoning_required
    estimate_input_tokens message_characters tool_characters sum encoded
    requires_high_impact_confirmation classify_turn reserve settle spent_since credits_spent
    reliability charge_of is_eligible eligible_of key_of before insert_sorted sorted keep
    primary_first eligible call_provider must_raise settle_reply react attempts proceed
    candidates_from complete_routed complete tally open_count count length
program = tt

abbrev model : (id : String) → (price : ℕ) → ModelCandidate
model id price = record {
  id = id;
  provider = id;
  model = "model";
  credential_env = "KEY";
  base_url = none;
  capability_class = "general";
  reasoning = 4;
  context_tokens = 100_000;
  tools = true;
  multimodal = false;
  reliability = 99;
  latency_ms = 800;
  input_micro_usd_per_million = price;
  output_micro_usd_per_million = price;
  cached_input_micro_usd_per_million = price;
  billing_mode = BillingMode.metered;
  plan = none;
  credits_micro_usd = some 5000;
  enabled = true;
  available = true;
  safety_tier = 4;
  max_output_tokens = 4096;
}

abbrev dear : ModelCandidate
dear = model "dear" 2_000_000

abbrev cheap : ModelCandidate
cheap = model "cheap" 1_000_000

abbrev policy : RoutingPolicy
policy = record {
  monthly_budget_micro_usd = 10_000;
  per_request_budget_micro_usd = 5000;
  output_reservation_tokens = 1000;
  min_reliability = 90;
  max_same_model_retries = 1;
  max_automatic_fallback_micro_usd = 4000;
}

abbrev env : Env
env = record {
  catalog = record { candidates = dear ∷ cheap ∷ []; policy = policy };
  credential = λ s. true;
  own_model = λ s. false;
  factory = λ s. true;
  quotient = λ a b. 100;
}

abbrev context : ModelRouteContext
context = record {
  owner_user_id = "ada";
  category = RouteCategory.execution;
  permission_granted = true;
  explicit_confirmation = false;
  context_tokens = 500;
  requires_tools = true;
  requires_multimodal = false;
  preferred_provider = none;
  preferred_model = none;
}

abbrev busy : MagiModelError
busy = record {
  code = "provider_busy";
  retryable = true;
  tool_calls = 0;
  billing_uncertain = false;
}

abbrev used : MagiModelUsage
used = record { input_tokens = 400; output_tokens = 200; cached_input_tokens = 0 }

abbrev reply : ModelCandidate → ℕ → Reply
reply c n = if nat_eq n 3 then answer (some used) else model_error busy

abbrev route_id : ℕ → String
route_id n = if nat_eq n 1 then "a" else if nat_eq n 2 then "b" else "c"

-- Another task of the same owner, which reserves a route for a request of its own.
abbrev kept_routes : Routes → Outcome MagiModelError Routes → Routes
kept_routes before (err e) = before
kept_routes before (ok after) = after

abbrev side_request : Routes → Outcome MagiModelError Routes
side_request rows = reserve context "s" cheap 1 1500 10_000 none "x" 100 50 rows

abbrev others : ℕ → Routes → Routes
others n rows = kept_routes rows (side_request rows)

abbrev world : World
world = record {
  reply = reply;
  route_id = route_id;
  reserved_at = λ n. 100;
  settled_at = λ n. 101;
  month_start = λ n. 50;
  meanwhile = others;
}

abbrev request : Request
request = record {
  request_id = "r";
  context = context;
  messages = record { content = 40; tool_calls = []; attachments = [] } ∷ [];
  system_context = 100;
  tools = record { description = 20; parameters = 20 } ∷ [];
}

eligible_test :
    eligible env context (estimated_input request) [] ≡ (cheap, 1500) ∷ (dear, 3000) ∷ []
unfolding program
eligible_test = refl

-- Two attempts at the cheap model are not charged; the dear one is, and so is the other request.
complete_routed_test : spent_since "ada" 50 (complete_routed env world request []).1 ≡ 2700
unfolding program
complete_routed_test = refl

abbrev value : Outcome MagiModelError Routes → Routes
value (err e) = []
value (ok a) = a

abbrev booked : Routes
booked = value (reserve context "r" cheap 1 1500 10_000 none "a" 100 50 [])

reserve-Booked_example : Booked context "r" cheap 1 1500 10_000 none "a" 100 50 [] booked
unfolding program
reserve-Booked_example =
    reserve-Booked context "r" cheap 1 1500 10_000 none "a" 100 50 [] (omega arith) refl

tally-eligible_example :
    tally (λ x. ltb 2000 x.1) (eligible env context 500 [])
    ≡ tally
        (λ c. is_eligible env context 500 [] c && ltb 2000 (estimate_of env 500 c))
        (dear ∷ cheap ∷ [])
tally-eligible_example = tally-eligible env context 500 [] (λ x. ltb 2000 x.1)

tally-eligible_head_example :
    tally (better_than (key_of env context []) (cheap, 1500)) (eligible env context 500 []) ≡ 0
unfolding program
tally-eligible_head_example =
    tally-eligible_head env context 500 [] {first = (cheap, 1500)} {others = (dear, 3000) ∷ []} refl

others-keep :
    (P : Routes → Type 0) (rows : Routes)
    → P rows
    → ((after : Routes) → side_request rows ≡ ok after → P after)
    → P (kept_routes rows (side_request rows))
others-keep P rows before placed = elim (Outcome-cases (side_request rows)) [
  | inl (raised, failed) ↦ rw failed before
  | inr (after, done) ↦ rw done (placed after done)
]

side_row :
    (rows after : Routes)
    → side_request rows ≡ ok after
    → after ≡ ("x", reservation context "s" cheap 1 1500 none 100) ∷ rows
side_row rows after e = reserve-rows context "s" cheap 1 1500 10_000 none "x" 100 50 rows e

route_id-apart : (n : ℕ) → ("x" == route_id n) ≡ false
route_id-apart n =
    if_ind (λ (id : String). ("x" == id) ≡ false) (nat_eq n 1) refl
      (if_ind (λ (id : String). ("x" == id) ≡ false) (nat_eq n 2) refl refl)

others-IsOwn : (asked : Request) → IsOwn env world asked
unfolding lookup
others-IsOwn asked n rows r found =
    others-keep (λ (after : Routes). lookup (route_id n) after ≡ some r) rows found
      (λ after e. rw (side_row rows after e, route_id-apart n) found)

others-IsWithin :
    (n : ℕ) (rows : Routes)
    → spent_since "ada" 50 rows ≤ 10_000
    → spent_since "ada" 50 (others n rows) ≤ 10_000
others-IsWithin n rows before =
    others-keep (λ (after : Routes). spent_since "ada" 50 after ≤ 10_000) rows before
      (λ after e.
        (reserve-Booked context "s" cheap 1 1500 10_000 none "x" 100 50 rows (omega arith)
          e).within)

others-open_count : (n : ℕ) (rows : Routes) → open_count "r" (others n rows) ≡ open_count "r" rows
unfolding open_count total
others-open_count n rows =
    others-keep (λ (after : Routes). open_count "r" after ≡ open_count "r" rows) rows refl
      (λ after e. rw (side_row rows after e) (omega arith))

others-IsAlone : (n : ℕ) (rows : Routes) → count "r" (others n rows) ≡ count "r" rows
unfolding count total
others-IsAlone n rows =
    others-keep (λ (after : Routes). count "r" after ≡ count "r" rows) rows refl
      (λ after e. rw (side_row rows after e) (omega arith))

reply-runs : (c : ModelCandidate) (n : ℕ) → reply c n ≢ cancelled
reply-runs c n e = elim (Bool-cases (nat_eq n 3)) [
  | inl last ↦ let clash : answer (some used) ≡ cancelled = rw last at e in absurd (cc)
  | inr early ↦ let clash : model_error busy ≡ cancelled = rw early at e in absurd (cc)
]

complete_routed-open_count_example : open_count "r" (complete_routed env world request []).1 ≡ 0
unfolding open_count total
complete_routed-open_count_example =
    complete_routed-open_count env world request [] reply-runs (others-IsOwn request)
      others-open_count

reply-cheap :
    (c : ModelCandidate) (n : ℕ) (u : MagiModelUsage)
    → world.reply c n ≡ answer (some u)
    → actual_cost c u ≤ estimate_of env (estimated_input request) c
unfolding actual_cost estimated_cost estimate_input_tokens message_characters tool_characters sum
    encoded
reply-cheap c n u e =
    let same : used ≡ u = ground arith in
    subst (λ u. actual_cost c u ≤ estimate_of env (estimated_input request) c) same (omega arith)

complete_routed-IsWithin_example :
    spent_since "ada" 50 (complete_routed env world request []).1 ≤ 10_000
unfolding spent_since total
complete_routed-IsWithin_example =
    complete_routed-IsWithin env world request 50 [] reply-cheap (λ n. refl) (λ n. omega arith)
      (others-IsOwn request) others-IsWithin (omega arith)

count-complete_routed_example :
    count "r" (complete_routed env world request []).1
    ≤ length (eligible env context (estimated_input request) []) * 2 + count "r" []
count-complete_routed_example = count-complete_routed env world request others-IsAlone []

abbrev grave : Request
grave = record request {
  context = record context {
    category = RouteCategory.high_impact_action;
    explicit_confirmation = true;
  };
}

abbrev finds : Pattern → String → Bool
finds p s = s == "delete it"

reserves : count "r" (complete_routed env world grave []).1 ≡ 3
unfolding program
reserves = refl

complete_routed-authorized_example :
    (context.permission_granted ≡ true) × (grave.context.explicit_confirmation ≡ true)
unfolding count total classify_turn requires_high_impact_confirmation
complete_routed-authorized_example =
    complete_routed-authorized env world grave [] finds "delete it" refl refl (λ same.
      let none_there : count "r" (complete_routed env world grave []).1 ≡ 0 = ap (count "r") same in
      absurd (omega (arith, reserves, none_there)))
