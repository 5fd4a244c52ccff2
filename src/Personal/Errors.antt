-- ===== src/Personal/Errors.antt =====
-- gateway/app/deployment_mode.py and gateway/app/firstmate_execution.py: under a policy that was loaded, the
-- assertions on it and the constraints of the table hold.
use mathlib.Core.Path.{subst}
use magistrate.Prelude.{
  ℕ, String, ◌≡◌, refl, Bool, true, false, ◌&&◌, not, Option, some, leb, arith, Bool-cases,
  Option-cases, inl, inr,
}
use magistrate.Prelude.Tables.{lookup}
use magistrate.Prelude.Outcome.{
  err, ok, >>=-eq-ok, >>=-eq-err, raise_if, raise_if-eq-ok, raise_if-eq-err, or_raise,
  or_raise-eq-err, ok-injective,
}
use magistrate.Personal.Policy.{
  PolicyError, personal_configuration_invalid, deployment_mode_invalid,
  personal_reservation_conflict, authorized_repository_required, integrity_failed, assertion_failed,
  Contract, Principal, Usage, is_contract, settings, is_text, or_default, from_env,
  require_principal, check_personal_admission,
}
use magistrate.Personal.Rows.{Store, Env}
use magistrate.Personal.Ledger.{
  Clock, Call, counted, usage, new_row, is_row, is_submitted, is_same, execution_repository, admit,
  reserve,
}
use magistrate.Personal.Budget.{Room, admission-Room}

-- The exceptions that no caller expects.
abbrev pub is_internal : PolicyError → Bool
is_internal assertion_failed = true
is_internal integrity_failed = true
is_internal _ = false

pub from_env-is_contract :
    (env : String → Option String) {policy : Contract}
    → from_env env ≡ ok policy
    → is_contract policy ≡ true
unfolding from_env is_contract
from_env-is_contract env {policy} h =
    elim (Bool-cases
      (is_text "public-saas" (or_default "public-saas" (env "MAGISTRATE_DEPLOYMENT_MODE")))) [
        | inl public ↦
            subst (λ (c : Contract). is_contract c ≡ true)
              (ok-injective (rw (public, from_env) at h)) refl
        | inr other ↦
            let h0 = rw (other, from_env) at h in
            let (_, _, h1) =
              >>=-eq-ok
                (raise_if
                  (not (
                    is_text "personal"
                      (or_default "public-saas" (env "MAGISTRATE_DEPLOYMENT_MODE"))))
                  deployment_mode_invalid)
                _ h0 in
            let (c, _, h2) = >>=-eq-ok (settings env) _ h1 in
            let (_, a, h3) =
              >>=-eq-ok (raise_if (not (is_contract c)) personal_configuration_invalid) _ h2 in
            subst (λ (c : Contract). is_contract c ≡ true) (ok-injective h3)
              (ground (arith, raise_if-eq-ok _ _ a))
      ]

require_principal-expected :
    (policy : Contract) (now : ℕ) (p : Principal) (scope : Option String) {raised : PolicyError}
    → require_principal policy now p scope ≡ err raised
    → is_internal raised ≡ false
unfolding require_principal
require_principal-expected policy now p scope {raised} h = ground arith

check_personal_admission-expected :
    (policy : Contract) (now : ℕ) (p : Principal) (u : Usage) (workers : ℕ) {raised : PolicyError}
    → is_contract policy ≡ true
    → check_personal_admission policy now p (some u) workers ≡ err raised
    → is_internal raised ≡ false
unfolding check_personal_admission is_contract
check_personal_admission-expected policy now p u workers {raised} valid h =
    elim (>>=-eq-err (require_principal policy now p (some "command")) _ h) [
      | inl a ↦ require_principal-expected policy now p (some "command") a
      | inr (_, _, h1) ↦ ground arith
    ]

row-ok :
    (env : Env) (policy : Contract) (clock : Clock) (call : Call) (store : Store) {ceiling : ℕ}
    → is_contract policy ≡ true
    → Room policy
        (counted call.principal.user_id (env.period clock.now) store.reservations)
        call.implementation_workers
        ceiling
    → (leb 1 ceiling && leb 1 call.implementation_workers && leb call.implementation_workers 2)
      ≡ true
unfolding is_contract
row-ok env policy clock call store {ceiling} valid room =
    ground (arith, room.hold, room.capacity, room.some_worker)

usage-expected :
    (env : Env) (owner : String) (now : ℕ) (store : Store) {raised : PolicyError}
    → usage env owner now store ≡ err raised
    → is_internal raised ≡ false
unfolding usage
usage-expected env owner now store {raised} h = ground arith

admit-expected :
    (env : Env) (policy : Contract) (clock : Clock) (call : Call) (store : Store)
    {raised : PolicyError}
    → is_contract policy ≡ true
    → is_submitted call.objective_id store.others ≡ true
    → admit env policy clock call store ≡ err raised
    → is_internal raised ≡ false
unfolding admit
admit-expected env policy clock call store {raised} valid known h =
    elim (>>=-eq-err
      (or_raise (execution_repository env call.principal.user_id call.project_id store.others)
        authorized_repository_required)
      _ h) [
        | inl a ↦ let (_, same) = or_raise-eq-err _ _ a in rw same refl
        | inr (repository, _, h1) ↦
            elim (>>=-eq-err (usage env call.principal.user_id clock.now store) _ h1) [
              | inl a ↦ usage-expected env call.principal.user_id clock.now store a
              | inr (u, counts, h2) ↦
                  elim (>>=-eq-err
                    (check_personal_admission policy clock.check call.principal (some u)
                      call.implementation_workers)
                    _ h2) [
                      | inl a ↦
                          check_personal_admission-expected policy clock.check call.principal u
                            call.implementation_workers valid a
                      | inr (ceiling, checked, h3) ↦
                          let room = admission-Room env policy clock call store counts checked in
                          let fine = row-ok env policy clock call store valid room in
                          elim (>>=-eq-err
                            (raise_if
                              (not (
                                is_row (new_row env policy call repository ceiling clock.now)
                                && is_submitted call.objective_id store.others))
                              integrity_failed)
                            _ h3) [
                              | inl a ↦
                                  let (bad, _) = raise_if-eq-err _ _ a in
                                  absurd (ground (arith, bad, fine, known))
                              | inr (_, _, h4) ↦ absurd (cc)
                            ]
                    ]
            ]
      ]

-- Under a policy that was loaded from the environment, a reservation for a submitted objective never
-- fails by an assertion on the policy or by a constraint of the table: it raises only what its callers
-- expect.
pub reserve-expected :
    (environment : String → Option String) (env : Env) (clock : Clock) (call : Call) (store : Store)
    {policy : Contract} {raised : PolicyError}
    → from_env environment ≡ ok policy
    → is_submitted call.objective_id store.others ≡ true
    → reserve env policy clock call store ≡ err raised
    → is_internal raised ≡ false
unfolding reserve
reserve-expected environment env clock call store {policy} {raised} loaded known h =
    let valid = from_env-is_contract environment loaded in
    elim (>>=-eq-err (require_principal policy clock.gate call.principal (some "command")) _ h) [
      | inl a ↦ require_principal-expected policy clock.gate call.principal (some "command") a
      | inr (_, _, h1) ↦ elim (Option-cases (lookup call.objective_id store.reservations)) [
        | inl none_there ↦
            admit-expected env policy clock call store valid known (rw none_there at h1)
        | inr (r, found) ↦ elim (Bool-cases (is_same call r)) [
          | inl same ↦ absurd (cc)
          | inr other ↦
              let same : err personal_reservation_conflict ≡ err raised = rw (found, other) at h1 in
              ground arith
        ]
      ]
    ]
