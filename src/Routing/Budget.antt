-- ===== src/Routing/Budget.antt =====
-- gateway/app/magi_routing.py: the month's budget holds through a request.
use mathlib.Core.Path.{subst}
use magistrate.Prelude.{ℕ, ◌≤◌, ◌≡◌, sym, refl, true, none, some, arith}
use magistrate.Prelude.Tables.{lookup}
use magistrate.Routing.Model.{ModelCandidate, MagiModelUsage, actual_cost}
use magistrate.Routing.Store.{Route, Routes, charge_of, spent_since}
use magistrate.Routing.Select.{Env, estimate_of}
use magistrate.Routing.Ledger.{reserve-Booked}
use magistrate.Routing.Failover.{
  Reply, answer, model_error, other_error, cancelled, World, Request, complete_routed, cost_of,
  estimated_input, settle_reply, call_provider,
}
use magistrate.Routing.Attempts.{complete_routed-keep}
use magistrate.Routing.Effects.{IsOwn, held_row, held-lookup, spent_since-settle}

module _ (env : Env) (w : World) (q : Request) where
  -- The owner's charges since the start of a month are within the budget.
  abbrev pub IsWithin : (start : ℕ) → Routes → Type 0
  IsWithin start routes =
      spent_since q.context.owner_user_id start routes ≤ env.catalog.policy.monthly_budget_micro_usd

  spent_since-settle_reply :
      (start : ℕ) (c : ModelCandidate) (ordinal : ℕ) (reply : Reply) (r : Route) (routes : Routes)
      → lookup (w.route_id ordinal) routes ≡ some r
      → r.estimated_cost ≡ r.budget_charge
      → ((u : MagiModelUsage) → reply ≡ answer (some u) → actual_cost c u ≤ r.budget_charge)
      → spent_since q.context.owner_user_id start (settle_reply w c ordinal reply routes)
        ≤ spent_since q.context.owner_user_id start routes
  unfolding settle_reply charge_of
  spent_since-settle_reply start c ordinal (answer none) r routes found same modest =
      spent_since-settle _ start (w.route_id ordinal) none none none true _ r routes found
        (omega (arith, same))
  spent_since-settle_reply start c ordinal (answer (some u)) r routes found same modest =
      spent_since-settle _ start (w.route_id ordinal) (some u) (cost_of c (some u)) none _ _ r
        routes found (modest u refl)
  spent_since-settle_reply start c ordinal (model_error e) r routes found same modest =
      spent_since-settle _ start (w.route_id ordinal) none none (some e) e.billing_uncertain _ r
        routes found (ground arith)
  spent_since-settle_reply start c ordinal other_error r routes found same modest =
      spent_since-settle _ start (w.route_id ordinal) none none (some _) true _ r routes found
        (omega (arith, same))
  spent_since-settle_reply start c ordinal cancelled r routes found same modest = omega arith

  call_provider-answer :
      (c : ModelCandidate) (ordinal : ℕ) (u : MagiModelUsage)
      → call_provider env w c ordinal ≡ answer (some u)
      → w.reply c ordinal ≡ answer (some u)
  unfolding call_provider
  call_provider-answer c ordinal u e = ground arith

  -- While a month lasts, if no answer costs more than its estimate, a request keeps the owner's charges since
  -- the start of the month within the budget, with all of its retries and fallbacks, even if its task is
  -- cancelled, and with whatever other tasks write in between, if they too keep the owner within
  -- the budget and leave the routes of the request's attempts alone.
  pub complete_routed-IsWithin :
      (start : ℕ) (routes : Routes)
      → ((c : ModelCandidate) (ordinal : ℕ) (u : MagiModelUsage)
          → w.reply c ordinal ≡ answer (some u)
          → actual_cost c u ≤ estimate_of env (estimated_input q) c)
      → ((n : ℕ) → w.month_start n ≡ start)
      → ((n : ℕ) → start ≤ w.reserved_at n)
      → IsOwn env w q
      → ((n : ℕ) (rows : Routes) → IsWithin start rows → IsWithin start (w.meanwhile n rows))
      → IsWithin start routes
      → IsWithin start (complete_routed env w q routes).1
  complete_routed-IsWithin start routes modest month clock mine others before =
      complete_routed-keep env w q (IsWithin start)
        (λ c estimate ordinal fallback rows held own h e.
          let b =
            reserve-Booked q.context q.request_id c ordinal estimate
              env.catalog.policy.monthly_budget_micro_usd fallback (w.route_id ordinal)
              (w.reserved_at ordinal) (w.month_start ordinal) rows
              (subst (λ n. n ≤ w.reserved_at ordinal) (sym (month ordinal)) (clock ordinal)) e in
          let within : IsWithin start held =
            subst (λ (n : ℕ). IsWithin n held) (month ordinal) b.within in
          let seen = others ordinal held within in
          let settled =
            spent_since-settle_reply start c ordinal (call_provider env w c ordinal)
              (held_row env w q c estimate ordinal fallback) (w.meanwhile ordinal held)
              (held-lookup env w q c estimate ordinal fallback rows mine e) refl
              (λ u answered.
                subst (λ n. actual_cost c u ≤ n) (sym own)
                  (modest c ordinal u (call_provider-answer c ordinal u answered))) in
          omega (arith, settled, seen))
        routes before
