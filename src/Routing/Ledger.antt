-- ===== src/Routing/Ledger.antt =====
-- gateway/app/magi_routing.py: what a reservation has passed, and what settling a route does.
use mathlib.Core.Path.{subst}
use magistrate.Prelude.{
  sym, ℕ, ◌+◌, ◌≤◌, String, ◌≡◌, refl, false, Option, none, some, ◌∷◌, eq_refl, arith, ltb, is_some,
  Bool, ◌||◌,
}
use magistrate.Prelude.Outcome.{ok, >>=-eq-ok, raise_if, raise_if-eq-ok, ok-injective}
use magistrate.Prelude.Tables.{lookup, total}
use magistrate.Routing.Model.{ModelRouteContext, ModelCandidate}
use magistrate.Routing.Store.{
  Routes, reserve, reservation, spent_since, credits_spent, over_credits, is_taken,
}

-- What a reservation has passed: the rows afterwards, the owner's month and the plan's credits.
pub record Booked (context : ModelRouteContext) (request_id : String) (c : ModelCandidate)
    (ordinal estimate budget : ℕ) (fallback : Option String) (route_id : String)
    (now month_start : ℕ) (before after : Routes) : Type 0 where
  pub rows :
      after ≡ (route_id, reservation context request_id c ordinal estimate fallback now) ∷ before
  pub fresh : lookup route_id before ≡ none
  pub charged :
      spent_since context.owner_user_id month_start after
      ≡ spent_since context.owner_user_id month_start before + estimate
  pub within : spent_since context.owner_user_id month_start after ≤ budget
  pub credits_charged : credits_spent c after ≡ credits_spent c before + estimate
  pub credits_within : over_credits c 0 after ≡ false

none_of : {A : Type 0} (o : Option A) → is_some o ≡ false → o ≡ none
none_of none h = refl
none_of (some a) h = absurd (cc)

or_left : (a b : Bool) → (a || b) ≡ false → a ≡ false
or_left a b h = ground arith

pub reserve-rows :
    (context : ModelRouteContext) (request_id : String) (c : ModelCandidate)
    (ordinal estimate budget : ℕ) (fallback : Option String) (route_id : String)
    (now month_start : ℕ) (routes : Routes) {after : Routes}
    → reserve context request_id c ordinal estimate budget fallback route_id now month_start routes
      ≡ ok after
    → after ≡ (route_id, reservation context request_id c ordinal estimate fallback now) ∷ routes
unfolding reserve
reserve-rows context request_id c ordinal estimate budget fallback route_id now start routes {after}
      e =
    let (_, _, e1) =
      >>=-eq-ok
        (raise_if (ltb budget (spent_since context.owner_user_id start routes + estimate)) _) _ e in
    let (_, _, e2) = >>=-eq-ok (raise_if (over_credits c estimate routes) _) _ e1 in
    let (_, _, e3) =
      >>=-eq-ok (raise_if (is_taken context.owner_user_id request_id ordinal route_id routes) _) _
        e2 in
    sym (ok-injective e3)

-- If the month did not start after the attempt, a reservation succeeds only when the owner's charges
-- since the start of the month and the plan's credits allow the estimate, which it then takes from
-- both; it adds one new row.
pub reserve-Booked :
    (context : ModelRouteContext) (request_id : String) (c : ModelCandidate)
    (ordinal estimate budget : ℕ) (fallback : Option String) (route_id : String)
    (now month_start : ℕ) (routes : Routes) {after : Routes}
    → month_start ≤ now
    → reserve context request_id c ordinal estimate budget fallback route_id now month_start routes
      ≡ ok after
    → Booked context request_id c ordinal estimate budget fallback route_id now month_start routes
        after
unfolding reserve spent_since credits_spent total
reserve-Booked context request_id c ordinal estimate budget fallback route_id now start routes
      {after} started e =
    let (_, month, e1) =
      >>=-eq-ok
        (raise_if (ltb budget (spent_since context.owner_user_id start routes + estimate)) _) _ e in
    let (_, credits, e2) = >>=-eq-ok (raise_if (over_credits c estimate routes) _) _ e1 in
    let (_, unused, e3) =
      >>=-eq-ok (raise_if (is_taken context.owner_user_id request_id ordinal route_id routes) _) _
        e2 in
    let within = raise_if-eq-ok _ _ month in
    let afford = raise_if-eq-ok _ _ credits in
    let row = reservation context request_id c ordinal estimate fallback now in
    subst
      (λ (rows : Routes).
        Booked context request_id c ordinal estimate budget fallback route_id now start routes rows)
      (ok-injective e3)
      (record {
        rows = refl;
        fresh =
            none_of (lookup route_id routes)
              (or_left (is_some (lookup route_id routes)) _ (raise_if-eq-ok _ _ unused));
        charged = ground (arith, eq_refl context.owner_user_id);
        within = ground (arith, eq_refl context.owner_user_id);
        credits_charged = ground (arith, eq_refl c.provider, eq_refl c.model);
        credits_within = ground (arith, eq_refl c.provider, eq_refl c.model);
      })
