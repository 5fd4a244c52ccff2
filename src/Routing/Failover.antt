-- ===== src/Routing/Failover.antt =====
-- gateway/app/magi_routing.py: `RoutedMagiModel.complete_routed`, the loop over candidates and
-- retries. What a provider answers to an attempt is a parameter, and so are the ids, the readings
-- of the clock and what other tasks write during the attempt, by its ordinal.
use magistrate.Prelude.{
  ℕ, zero, suc, ◌+◌, String, Bool, true, false, ◌&&◌, ◌||◌, not, Option, none, some, List, [], ◌∷◌,
  ◌==◌, if◌then◌else◌, ltb,
}
use magistrate.Prelude.Outcome.{Outcome, err, ok}
use magistrate.Routing.Model.{
  ModelRouteContext, ModelCandidate, MagiModelUsage, MessageSize, ToolSize, RouteCategory,
  actual_cost, estimate_input_tokens, is_direct, is_high_impact, max,
}
use magistrate.Routing.Store.{MagiModelError, final_error, Routes, reserve, settle}
use magistrate.Routing.Select.{Env, eligible}

-- What a provider does: it answers, it raises `MagiModelError`, or it raises another `Exception`; or the
-- task is cancelled while it waits, which is no `Exception`.
pub data Reply : Type 0 where
  answer : (usage : Option MagiModelUsage) → Reply
  model_error : MagiModelError → Reply
  other_error : Reply
  cancelled : Reply

-- The world outside, by the ordinal of an attempt: `meanwhile` is what other tasks write to the routes while
-- the provider is waited for.
pub record World : Type 0 where
  pub reply : ModelCandidate → ℕ → Reply
  pub route_id : ℕ → String
  pub reserved_at : ℕ → ℕ
  pub settled_at : ℕ → ℕ
  pub month_start : ℕ → ℕ
  pub meanwhile : ℕ → Routes → Routes

pub record Request : Type 0 where
  pub request_id : String
  pub context : ModelRouteContext
  pub messages : List MessageSize
  pub system_context : ℕ
  pub tools : List ToolSize

-- `self._provider(candidate).complete(...)`
unfoldable pub call_provider : Env → World → ModelCandidate → ℕ → Reply
call_provider env w c ordinal =
    if env.own_model c.id || env.factory c.provider
    then w.reply c ordinal
    else model_error (final_error "provider_not_supported")

-- How the attempts at one candidate end: with the request's result or error, or with the error
-- after which the next candidate is tried.
pub data Turn : Type 0 where
  done : Option MagiModelUsage → Turn
  raised : MagiModelError → Turn
  next : MagiModelError → Turn

abbrev pub safe_error : MagiModelError
safe_error = record {
  code = "provider_failure";
  retryable = true;
  tool_calls = 0;
  billing_uncertain = true;
}

-- No second attempt after an error that cannot be retried, after a tool call, or where an unknown
-- charge is above the ceiling.
unfoldable pub must_raise : Env → (estimate : ℕ) → MagiModelError → Bool
must_raise env estimate e =
    not e.retryable
    || ltb 0 e.tool_calls
    || e.billing_uncertain && ltb env.catalog.policy.max_automatic_fallback_micro_usd estimate

abbrev pub cost_of : ModelCandidate → Option MagiModelUsage → Option ℕ
cost_of c none = none
cost_of c (some u) = some (actual_cost c u)

-- The books after a reply. A cancelled attempt is not settled.
unfoldable pub settle_reply : World → ModelCandidate → (ordinal : ℕ) → Reply → Routes → Routes
settle_reply w c ordinal (answer usage) routes =
    settle (w.route_id ordinal) usage (cost_of c usage) none
      (elim usage [ none ↦ true | some u ↦ false ]) (w.settled_at ordinal) routes
settle_reply w c ordinal (model_error e) routes =
    settle (w.route_id ordinal) none none (some e) e.billing_uncertain (w.settled_at ordinal) routes
settle_reply w c ordinal other_error routes =
    settle (w.route_id ordinal) none none (some safe_error) true (w.settled_at ordinal) routes
settle_reply w c ordinal cancelled routes = routes

abbrev pub attempt_reserve :
    Env
    → World
    → Request
    → ModelCandidate
    → (estimate ordinal : ℕ) → (fallback : Option String) → Routes
    → Outcome MagiModelError Routes
attempt_reserve env w q c estimate ordinal fallback routes =
    reserve q.context q.request_id c ordinal estimate env.catalog.policy.monthly_budget_micro_usd
      fallback (w.route_id ordinal) (w.reserved_at ordinal) (w.month_start ordinal) routes

-- What follows a reply, once the books are kept: `again` is the rest of the loop.
unfoldable pub react :
    Env
    → (estimate ordinal : ℕ) → Reply
    → Routes
    → (again : MagiModelError → Turn × ℕ × Routes) → Turn × ℕ × Routes
react env estimate ordinal (answer usage) booked again = (done usage, ordinal, booked)
react env estimate ordinal other_error booked again = (raised safe_error, ordinal, booked)
react env estimate ordinal cancelled booked again =
    (raised (final_error "cancelled"), ordinal, booked)
react env estimate ordinal (model_error e) booked again =
    if must_raise env estimate e then (raised e, ordinal, booked) else again e

-- The loop over the retries of a candidate: `left` attempts remain, and `ordinal` were made before.
-- The result is how it ended, the ordinal of the last attempt, and the routes.
unfoldable pub attempts :
    Env
    → World
    → Request
    → ModelCandidate
    → (estimate : ℕ) → (fallback : Option String) → (left ordinal : ℕ) → (last : MagiModelError)
    → Routes
    → Turn × ℕ × Routes
attempts env w q c estimate fallback zero ordinal last routes = (next last, ordinal, routes)
attempts env w q c estimate fallback (suc left) ordinal last routes =
    elim (attempt_reserve env w q c estimate (suc ordinal) fallback routes) [
      | err e ↦
          if e.code == "model_credits_exhausted"
          then (next e, suc ordinal, routes)
          else (raised e, suc ordinal, routes)
      | ok held ↦
          let reply = call_provider env w c (suc ordinal) in
          let booked = settle_reply w c (suc ordinal) reply (w.meanwhile (suc ordinal) held) in
          react env estimate (suc ordinal) reply booked
            (λ e. attempts env w q c estimate fallback left (suc ordinal) e booked)
    ]

abbrev pub no_model : MagiModelError
no_model = final_error "no_reliably_capable_model"

-- Whether a candidate after the first needs a confirmation that the request does not have.
abbrev pub needs_confirmation : Env → Request → (first : Bool) → (estimate : ℕ) → Bool
needs_confirmation env q first estimate =
    not first
    && ltb env.catalog.policy.max_automatic_fallback_micro_usd estimate
    && not q.context.explicit_confirmation

-- What follows the attempts at a candidate: `others` is the rest of the loop.
unfoldable pub proceed :
    Turn
    → Routes
    → (others : MagiModelError → Outcome MagiModelError (Option MagiModelUsage) × Routes)
    → Outcome MagiModelError (Option MagiModelUsage) × Routes
proceed (done usage) routes others = (ok usage, routes)
proceed (raised e) routes others = (err e, routes)
proceed (next e) routes others = others e

-- The loop over the candidates.
unfoldable pub candidates_from :
    Env
    → World
    → Request
    → (first : Bool) → (fallback : Option String) → (ordinal : ℕ) → (last : MagiModelError)
    → List (ModelCandidate × ℕ)
    → Routes
    → Outcome MagiModelError (Option MagiModelUsage) × Routes
candidates_from env w q first fallback ordinal last [] routes = (err last, routes)
candidates_from env w q first fallback ordinal last ((c, estimate) ∷ rest) routes =
    let left = env.catalog.policy.max_same_model_retries + 1 in
    let (turn, ordinal', routes') = attempts env w q c estimate fallback left ordinal last routes in
    if needs_confirmation env q first estimate
    then (err (final_error "route_fallback_confirmation_required"), routes)
    else proceed turn routes'
        (λ e. candidates_from env w q false (some c.id) ordinal' e rest routes')

abbrev pub estimated_input : Request → ℕ
estimated_input q =
    max q.context.context_tokens (estimate_input_tokens q.messages q.system_context q.tools)

unfoldable pub complete_routed :
    Env → World → Request → Routes → Outcome MagiModelError (Option MagiModelUsage) × Routes
complete_routed env w q routes =
    if not (is_direct q.context.category) && not q.context.permission_granted
    then (err (final_error "route_permission_required"), routes)
    else if is_high_impact q.context.category && not q.context.explicit_confirmation
    then (err (final_error "route_confirmation_required"), routes)
    else candidates_from env w q true none 0 no_model
        (eligible env q.context (estimated_input q) routes) routes

abbrev pub some_tools : List ToolSize → Bool
some_tools [] = false
some_tools (t ∷ ts) = true

-- `complete`: the least authority, for callers other than the chat.
unfoldable pub complete :
    Env
    → World
    → (request_id : String) → List MessageSize
    → (system_context : ℕ) → List ToolSize
    → Routes
    → Outcome MagiModelError (Option MagiModelUsage) × Routes
complete env w request_id messages system tools routes =
    complete_routed env w
      record {
        request_id = request_id;
        context = record {
          owner_user_id = "system";
          category = RouteCategory.direct_conversation;
          permission_granted = true;
          explicit_confirmation = false;
          context_tokens = 0;
          requires_tools = some_tools tools;
          requires_multimodal = false;
          preferred_provider = none;
          preferred_model = none;
        };
        messages = messages;
        system_context = system;
        tools = tools;
      }
      routes
