-- ===== src/Routing/Effects.antt =====
-- gateway/app/magi_routing.py: no reservation outlives its request.
use magistrate.Prelude.{
  ℕ, ◌+◌, ◌≤◌, String, ◌≡◌, ◌≢◌, refl, Bool, true, Option, none, some, ◌∷◌, eq_refl, if◌then◌else◌,
  arith, ◌==◌, ◌&&◌, ◌||◌, Bool-cases, inl, inr,
}
use magistrate.Prelude.Outcome.{ok}
use magistrate.Prelude.Tables.{lookup, total, total-update}
use magistrate.Routing.Model.{ModelCandidate, MagiModelUsage}
use magistrate.Routing.Store.{
  MagiModelError, Route, Routes, reservation, settle, settled, charge_of, is_reserved, spent_since,
  charge_since, final_error,
}
use magistrate.Routing.Select.{Env}
use magistrate.Routing.Ledger.{reserve-rows}
use magistrate.Routing.Failover.{
  Reply, answer, model_error, other_error, cancelled, World, Request, complete_routed, cost_of,
  settle_reply, call_provider, attempt_reserve,
}
use magistrate.Routing.Attempts.{complete_routed-keep}

-- Whether a route of a request is reserved and not settled.
abbrev pub is_open : (request_id : String) → Route → ℕ
is_open request_id r = if r.request_id == request_id && is_reserved r.state then 1 else 0

-- How many routes of a request are reserved and not settled.
unfoldable pub open_count : (request_id : String) → Routes → ℕ
open_count request_id = total (is_open request_id)

settled-is_open :
    (request_id : String) (usage : Option MagiModelUsage) (actual : Option ℕ)
    (error : Option MagiModelError) (uncertain : Bool) (now : ℕ) (r : Route)
    → is_open request_id (settled usage actual error uncertain now r) ≡ 0
settled-is_open request_id usage actual none uncertain now r = ground arith
settled-is_open request_id usage actual (some e) uncertain now r = ground arith

-- Settling an open route of the request closes one.
open_count-settle :
    (key : String) (usage : Option MagiModelUsage) (actual : Option ℕ)
    (error : Option MagiModelError) (uncertain : Bool) (now : ℕ) (r : Route) (routes : Routes)
    → lookup key routes ≡ some r
    → is_reserved r.state ≡ true
    → 1 + open_count r.request_id (settle key usage actual error uncertain now routes)
      ≡ open_count r.request_id routes
unfolding open_count settle
open_count-settle key usage actual error uncertain now r routes found held =
    let moved =
      total-update (is_open r.request_id) (settled usage actual error uncertain now) key routes
        found in
    let closed = settled-is_open r.request_id usage actual error uncertain now r in
    let counted : is_open r.request_id r ≡ 1 = rw (eq_refl r.request_id, held) refl in
    omega (arith, moved, closed, counted)

settled-charge :
    (owner : String) (start : ℕ) (usage : Option MagiModelUsage) (actual : Option ℕ)
    (error : Option MagiModelError) (uncertain : Bool) (now : ℕ) (r : Route)
    → charge_of actual uncertain r.estimated_cost ≤ r.budget_charge
    → charge_since owner start (settled usage actual error uncertain now r)
      ≤ charge_since owner start r
settled-charge owner start usage actual error uncertain now r le = ground arith

-- Settling a route for no more than it holds charges its owner no more.
pub spent_since-settle :
    (owner : String) (start : ℕ) (key : String) (usage : Option MagiModelUsage) (actual : Option ℕ)
    (error : Option MagiModelError) (uncertain : Bool) (now : ℕ) (r : Route) (routes : Routes)
    → lookup key routes ≡ some r
    → charge_of actual uncertain r.estimated_cost ≤ r.budget_charge
    → spent_since owner start (settle key usage actual error uncertain now routes)
      ≤ spent_since owner start routes
unfolding spent_since settle
spent_since-settle owner start key usage actual error uncertain now r routes found le =
    let moved =
      total-update (charge_since owner start) (settled usage actual error uncertain now) key routes
        found in
    let less = settled-charge owner start usage actual error uncertain now r le in
    omega (arith, moved, less)

module _ (env : Env) (w : World) (q : Request) where
  -- The row that an attempt reserves.
  abbrev pub held_row : ModelCandidate → (estimate ordinal : ℕ) → (fallback : Option String) → Route
  held_row c estimate ordinal fallback =
      reservation q.context q.request_id c ordinal estimate fallback (w.reserved_at ordinal)

  pub attempt_reserve-rows :
      (c : ModelCandidate) (estimate ordinal : ℕ) (fallback : Option String) (routes : Routes)
      {held : Routes}
      → attempt_reserve env w q c estimate ordinal fallback routes ≡ ok held
      → held ≡ (w.route_id ordinal, held_row c estimate ordinal fallback) ∷ routes
  attempt_reserve-rows c estimate ordinal fallback routes e =
      reserve-rows q.context q.request_id c ordinal estimate
        env.catalog.policy.monthly_budget_micro_usd fallback (w.route_id ordinal)
        (w.reserved_at ordinal) (w.month_start ordinal) routes e

  -- Other tasks leave the route of an attempt alone, as its id is the attempt's own.
  abbrev pub IsOwn : Type 0
  IsOwn =
      (n : ℕ) (rows : Routes) (r : Route)
      → lookup (w.route_id n) rows ≡ some r
      → lookup (w.route_id n) (w.meanwhile n rows) ≡ some r

  pub held-lookup :
      (c : ModelCandidate) (estimate ordinal : ℕ) (fallback : Option String) (routes : Routes)
      {held : Routes}
      → IsOwn
      → attempt_reserve env w q c estimate ordinal fallback routes ≡ ok held
      → lookup (w.route_id ordinal) (w.meanwhile ordinal held)
        ≡ some (held_row c estimate ordinal fallback)
  unfolding lookup
  held-lookup c estimate ordinal fallback routes {held} mine e =
      mine ordinal held (held_row c estimate ordinal fallback) (
        rw (attempt_reserve-rows c estimate ordinal fallback routes e, eq_refl (w.route_id ordinal))
          refl)

  open_count-settle_reply :
      (c : ModelCandidate) (ordinal : ℕ) (reply : Reply) (r : Route) (routes : Routes)
      → reply ≢ cancelled
      → lookup (w.route_id ordinal) routes ≡ some r
      → is_reserved r.state ≡ true
      → 1 + open_count r.request_id (settle_reply w c ordinal reply routes)
        ≡ open_count r.request_id routes
  unfolding settle_reply
  open_count-settle_reply c ordinal (answer usage) r routes runs found h =
      open_count-settle (w.route_id ordinal) usage (cost_of c usage) none _ _ r routes found h
  open_count-settle_reply c ordinal (model_error e) r routes runs found h =
      open_count-settle (w.route_id ordinal) none none (some e) _ _ r routes found h
  open_count-settle_reply c ordinal other_error r routes runs found h =
      open_count-settle (w.route_id ordinal) none none (some _) _ _ r routes found h
  open_count-settle_reply c ordinal cancelled r routes runs found h = absurd (runs refl)

  call_provider-runs :
      (c : ModelCandidate) (ordinal : ℕ)
      → w.reply c ordinal ≢ cancelled
      → call_provider env w c ordinal ≢ cancelled
  unfolding call_provider
  call_provider-runs c ordinal runs e =
      elim (Bool-cases (env.own_model c.id || env.factory c.provider)) [
        | inl known ↦ runs (rw (known, call_provider) at e)
        | inr strange ↦
            let clash : model_error (final_error "provider_not_supported") ≡ cancelled =
              rw (strange, call_provider) at e in
            absurd (cc)
      ]

  -- A request settles every route that it reserves, however it ends, if its task is not cancelled while
  -- it waits for a provider, and if other tasks change neither the route of the attempt nor how many routes
  -- of the request are open: as many routes of the request are open after it as before.
  pub complete_routed-open_count :
      (routes : Routes)
      → ((c : ModelCandidate) (n : ℕ) → w.reply c n ≢ cancelled)
      → IsOwn
      → ((n : ℕ) (rows : Routes)
          → open_count q.request_id (w.meanwhile n rows) ≡ open_count q.request_id rows)
      → open_count q.request_id (complete_routed env w q routes).1 ≡ open_count q.request_id routes
  unfolding open_count total
  complete_routed-open_count routes runs mine apart =
      complete_routed-keep env w q
        (λ after. open_count q.request_id after ≡ open_count q.request_id routes)
        (λ c estimate ordinal fallback before held own h e.
          let rows = attempt_reserve-rows c estimate ordinal fallback before e in
          let seen = apart ordinal held in
          let closed =
            open_count-settle_reply c ordinal (call_provider env w c ordinal)
              (held_row c estimate ordinal fallback) (w.meanwhile ordinal held)
              (call_provider-runs c ordinal (runs c ordinal))
              (held-lookup c estimate ordinal fallback before mine e) refl in
          let one : open_count q.request_id held ≡ 1 + open_count q.request_id before =
            rw (rows, eq_refl q.request_id) refl in
          omega (arith, seen, closed, one, h))
        routes refl
