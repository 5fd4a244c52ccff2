-- ===== src/Personal/Budget.antt =====
-- gateway/app/firstmate_execution.py: what `PersonalResourceLedger` keeps within the limits of the policy.
use mathlib.Core.Path.{subst}
use magistrate.Prelude.{
  ℕ, ◌+◌, ◌≤◌, String, ◌≡◌, sym, ap, ◌∙◌, false, ◌&&◌, ◌||◌, not, some, ◌∷◌, ◌==◌, leb, ltb, arith,
  Bool-cases, Option-cases, inl, inr, ◌⊎◌,
}
use magistrate.Prelude.Tables.{lookup}
use magistrate.Prelude.Outcome.{
  ok, >>=-eq-ok, raise_if, raise_if-eq-ok, or_raise, or_raise-eq-ok, ok-injective,
}
use magistrate.Personal.Policy.{
  authorized_repository_required, historical_execution_unsettled, integrity_failed,
  validation_failed, assertion_failed, personal_mode_required, resource_owner_mismatch,
  implementation_capacity_exceeded, personal_spend_limit_exceeded, Contract, Principal, Usage,
  is_personal, is_usage, over_capacity, require_principal, check_personal_admission,
}
use magistrate.Personal.Rows.{Store, Env, Repository}
use magistrate.Personal.Ledger.{
  Clock, Call, counted, usage, new_row, is_row, is_submitted, is_same, execution_repository, exists,
  is_historical, is_unknown, admit, reserve,
}

-- What an admission has checked of the counted usage.
pub record Room (policy : Contract) (u : Usage) (workers ceiling : ℕ) : Type 0 where
  pub monthly : ℕ
  pub limit : policy.monthly_spend_limit_micro_usd ≡ some monthly
  pub hold : policy.objective_spend_limit_micro_usd ≡ some ceiling
  pub spending : u.spent_micro_usd + u.reserved_micro_usd + ceiling ≤ monthly
  pub capacity : u.active_implementation_workers + workers ≤ policy.max_implementation_workers
  pub objectives : u.active_objectives + 1 ≤ policy.max_implementation_workers
  pub some_worker : 1 ≤ workers

over_capacity-false :
    (policy : Contract) (u : Usage) (workers : ℕ)
    → over_capacity policy u workers ≡ false
    → (u.active_implementation_workers + workers ≤ policy.max_implementation_workers)
      × (u.active_objectives + 1 ≤ policy.max_implementation_workers)
unfolding over_capacity
over_capacity-false policy u workers h = (ground arith, ground arith)

pub check_personal_admission-Room :
    (policy : Contract) (now : ℕ) (p : Principal) (u : Usage) (workers : ℕ) {ceiling : ℕ}
    → check_personal_admission policy now p (some u) workers ≡ ok ceiling
    → Room policy u workers ceiling
unfolding check_personal_admission
check_personal_admission-Room policy now p u workers {ceiling} h =
    let (_, _, h1) = >>=-eq-ok (require_principal policy now p (some "command")) _ h in
    let (_, _, h2) = >>=-eq-ok (raise_if (not (is_personal policy)) personal_mode_required) _ h1 in
    let (_, _, h3) =
      >>=-eq-ok (raise_if (not (u.owner_principal_id == p.user_id)) resource_owner_mismatch) _ h2 in
    let (_, enough, h4) =
      >>=-eq-ok
        (raise_if (not (leb 1 workers && leb workers policy.max_implementation_workers))
          implementation_capacity_exceeded)
        _ h3 in
    let (_, a, h5) =
      >>=-eq-ok (raise_if (over_capacity policy u workers) implementation_capacity_exceeded) _ h4 in
    let (hold, b, h6) =
      >>=-eq-ok (or_raise policy.objective_spend_limit_micro_usd assertion_failed) _ h5 in
    let (monthly, c, h7) =
      >>=-eq-ok (or_raise policy.monthly_spend_limit_micro_usd assertion_failed) _ h6 in
    let (_, d, h8) =
      >>=-eq-ok
        (raise_if (ltb monthly (u.spent_micro_usd + u.reserved_micro_usd + hold))
          personal_spend_limit_exceeded)
        _ h7 in
    let (capacity, objectives) = over_capacity-false policy u workers (raise_if-eq-ok _ _ a) in
    let same : hold ≡ ceiling = ok-injective h8 in
    record {
      monthly = monthly;
      limit = or_raise-eq-ok _ _ c;
      hold = or_raise-eq-ok _ _ b ∙ ap some same;
      spending = ground (arith, raise_if-eq-ok _ _ d, same);
      capacity = capacity;
      objectives = objectives;
      some_worker = ground (arith, raise_if-eq-ok _ _ enough);
    }

-- A new hold is one row more, for which there was room.
pub record Admitted (env : Env) (policy : Contract) (clock : Clock) (call : Call)
    (store after : Store) : Type 0 where
  pub repository : Repository
  pub ceiling : ℕ
  pub room :
      Room policy
        (counted call.principal.user_id (env.period clock.now) store.reservations)
        call.implementation_workers
        ceiling
  pub row : after ≡ record store {
    reservations =
        (call.objective_id, new_row env policy call repository ceiling clock.now)
        ∷ store.reservations;
  }

usage-counted :
    (env : Env) (owner : String) (now : ℕ) (store : Store) {u : Usage}
    → usage env owner now store ≡ ok u
    → u ≡ counted owner (env.period now) store.reservations
unfolding usage
usage-counted env owner now store {u} h =
    let (_, _, h1) =
      >>=-eq-ok
        (raise_if
          (exists (is_historical owner) store.others.credits
            || exists (is_unknown owner store.reservations) store.others.executions)
          historical_execution_unsettled)
        _ h in
    let (_, _, h2) =
      >>=-eq-ok
        (raise_if (not (is_usage (counted owner (env.period now) store.reservations)))
          validation_failed)
        _ h1 in
    sym (ok-injective h2)

-- The usage that an admission checks is the counted one.
pub admission-Room :
    (env : Env) (policy : Contract) (clock : Clock) (call : Call) (store : Store) {u : Usage}
    {ceiling : ℕ}
    → usage env call.principal.user_id clock.now store ≡ ok u
    → check_personal_admission policy clock.check call.principal
        (some u)
        call.implementation_workers
      ≡ ok ceiling
    → Room policy
        (counted call.principal.user_id (env.period clock.now) store.reservations)
        call.implementation_workers
        ceiling
admission-Room env policy clock call store {u} {ceiling} counts checked =
    check_personal_admission-Room policy clock.check call.principal
      (counted call.principal.user_id (env.period clock.now) store.reservations)
      call.implementation_workers
      (subst
        (λ (u : Usage).
          check_personal_admission policy clock.check call.principal (some u)
            call.implementation_workers
          ≡ ok ceiling)
        (usage-counted env call.principal.user_id clock.now store counts) checked)

pub admit-Admitted :
    (env : Env) (policy : Contract) (clock : Clock) (call : Call) (store : Store) {after : Store}
    → admit env policy clock call store ≡ ok after
    → Admitted env policy clock call store after
unfolding admit
admit-Admitted env policy clock call store {after} h =
    let (repository, _, h1) =
      >>=-eq-ok
        (or_raise (execution_repository env call.principal.user_id call.project_id store.others)
          authorized_repository_required)
        _ h in
    let (u, counts, h2) = >>=-eq-ok (usage env call.principal.user_id clock.now store) _ h1 in
    let (ceiling, checked, h3) =
      >>=-eq-ok
        (check_personal_admission policy clock.check call.principal (some u)
          call.implementation_workers)
        _ h2 in
    let (_, _, h4) =
      >>=-eq-ok
        (raise_if
          (not (
            is_row (new_row env policy call repository ceiling clock.now)
            && is_submitted call.objective_id store.others))
          integrity_failed)
        _ h3 in
    record {
      repository = repository;
      ceiling = ceiling;
      room = admission-Room env policy clock call store counts checked;
      row = sym (ok-injective h4);
    }

pub reserve-Admitted :
    (env : Env) (policy : Contract) (clock : Clock) (call : Call) (store : Store) {after : Store}
    → reserve env policy clock call store ≡ ok after
    → (after ≡ store) ⊎ Admitted env policy clock call store after
unfolding reserve
reserve-Admitted env policy clock call store {after} h =
    let (_, _, h1) =
      >>=-eq-ok (require_principal policy clock.gate call.principal (some "command")) _ h in
    elim (Option-cases (lookup call.objective_id store.reservations)) [
      | inl none_there ↦ inr (admit-Admitted env policy clock call store (rw none_there at h1))
      | inr (r, found) ↦ elim (Bool-cases (is_same call r)) [
        | inl same ↦ inl (sym (ok-injective (rw (found, same) at h1)))
        | inr other ↦ absurd (cc)
      ]
    ]
