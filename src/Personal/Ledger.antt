-- ===== src/Personal/Ledger.antt =====
-- gateway/app/firstmate_execution.py: `PersonalResourceLedger`, its table, what it counts, and the hold for
-- a new objective. gateway/app/projects.py: the repository that an objective may use.
use magistrate.Prelude.{
  ℕ, String, Bool, true, false, ◌&&◌, ◌||◌, not, Option, none, some, List, [], ◌∷◌, ◌++◌, ◌==◌,
  if◌then◌else◌, leb, nat_eq,
}
use magistrate.Prelude.Tables.{Table, lookup, total}
use magistrate.Prelude.Outcome.{Outcome, err, ok, ◌>>=◌, ◌>>◌, raise_if, or_raise}
use magistrate.Personal.Rows.{
  ProjectRepository, AppRepository, Installation, Repository, Status, Row, Credit, Execution,
  Submission, Tables, Store, Env,
}
use magistrate.Personal.Policy.{
  PolicyError, personal_reservation_conflict, authorized_repository_required,
  historical_execution_unsettled, integrity_failed, validation_failed, Contract, Principal, Usage,
  is_text, is_usage, require_principal, check_personal_admission,
}

unfoldable pub gather {ℓ κ} : {A : Type ℓ} {B : Type κ} → (A → List B) → List A → List B
gather f [] = []
gather f (x ∷ xs) = f x ++ gather f xs

unfoldable pub exists {ℓ} : {A : Type ℓ} → (A → Bool) → List A → Bool
exists p [] = false
exists p (x ∷ xs) = p x || exists p xs

abbrev pub is_listed :
    Env → (owner project : String) → ProjectRepository → AppRepository → Installation → Bool
is_listed env owner project p a i =
    env.lower a.full_name == env.lower p.full_name
    && a.active
    && nat_eq i.installation_id a.installation_id
    && is_text p.owner_user_id i.user_id
    && i.status == "active"
    && p.owner_user_id == owner
    && p.project_id == project
    && p.provider == "github"

-- The joined rows.
unfoldable pub listed : Env → (owner project : String) → Tables → List Repository
listed env owner project t =
    gather
      (λ (p : ProjectRepository).
        gather
          (λ (a : AppRepository).
            gather
              (λ (i : Installation).
                if is_listed env owner project p a i
                then record {
                  installation_id = a.installation_id;
                  provider_repository_id = a.repository_id;
                  repository = a.full_name;
                  project_repository_id = p.repository_id;
                }
                  ∷ []
                else [])
              t.installations)
          t.app_repositories)
      t.project_repositories

abbrev pub only {ℓ} : {A : Type ℓ} → List A → Option A
only (x ∷ []) = some x
only _ = none

unfoldable pub execution_repository :
    Env → (owner : String) → Option String → Tables → Option Repository
execution_repository env owner none t = none
execution_repository env owner (some project) t =
    if project == "" then none else only (listed env owner project t)

abbrev pub is_reserved : Status → Bool
is_reserved Status.reserved = true
is_reserved _ = false

abbrev pub is_settled : Status → Bool
is_settled Status.settled = true
is_settled _ = false

abbrev pub is_held : (owner : String) → Row → Bool
is_held owner r = r.owner_user_id == owner && is_reserved r.status

abbrev pub active_of : (owner : String) → Row → ℕ
active_of owner r = if is_held owner r then 1 else 0

abbrev pub workers_of : (owner : String) → Row → ℕ
workers_of owner r = if is_held owner r then r.implementation_workers else 0

abbrev pub held_of : (owner : String) → Row → ℕ
held_of owner r = if is_held owner r then r.reserved_micro_usd else 0

abbrev pub amount : Option ℕ → ℕ
amount none = 0
amount (some n) = n

abbrev pub spent_of : (owner period : String) → Row → ℕ
spent_of owner period r =
    if r.owner_user_id == owner && is_settled r.status && r.period_key == period
    then amount r.actual_micro_usd
    else 0

abbrev pub has_hold : (objective : String) → Table Row → Bool
has_hold objective rows = elim (lookup objective rows) [
  | none ↦ false
  | some r ↦ is_reserved r.status
]

abbrev pub is_unknown : (owner : String) → Table Row → Execution → Bool
is_unknown owner rows x =
    x.owner_user_id == owner
    && (elim x.terminal_phase [ none ↦ true | some phase ↦ false ])
    && not (has_hold x.objective_id rows)

abbrev pub is_historical : (owner : String) → Credit → Bool
is_historical owner c = c.owner_user_id == owner && c.status == "reserved"

abbrev pub counted : (owner period : String) → Table Row → Usage
counted owner period rows = record {
  owner_principal_id = owner;
  active_objectives = total (active_of owner) rows;
  active_implementation_workers = total (workers_of owner) rows;
  spent_micro_usd = total (spent_of owner period) rows;
  reserved_micro_usd = total (held_of owner) rows;
}

unfoldable pub usage : Env → (owner : String) → (now : ℕ) → Store → Outcome PolicyError Usage
usage env owner now store = do
  raise_if
      (exists (is_historical owner) store.others.credits
        || exists (is_unknown owner store.reservations) store.others.executions)
      historical_execution_unsettled
  raise_if (not (is_usage (counted owner (env.period now) store.reservations))) validation_failed
  ok (counted owner (env.period now) store.reservations)

-- What `summary` answers.
pub data Summary : Type 0 where
  complete : Usage → Summary
  incomplete : PolicyError → Summary

unfoldable pub summary : Env → (owner : String) → (now : ℕ) → Store → Outcome PolicyError Summary
summary env owner now store = elim (usage env owner now store) [
  | ok u ↦ ok (complete u)
  | err validation_failed ↦ err validation_failed
  | err raised ↦ ok (incomplete raised)
]

-- The times that are read one after the other.
pub record Clock : Type 0 where
  pub gate : ℕ
  pub now : ℕ
  pub check : ℕ

pub record Call : Type 0 where
  pub principal : Principal
  pub objective_id : String
  pub contract_sha256 : String
  pub project_id : Option String
  pub implementation_workers : ℕ

abbrev pub new_row : Env → Contract → Call → Repository → (ceiling now : ℕ) → Row
new_row env policy call repository ceiling now = record {
  owner_user_id = call.principal.user_id;
  actor_session_id = call.principal.session_id;
  contract_sha256 = call.contract_sha256;
  policy = policy;
  repository = repository;
  reserved_micro_usd = ceiling;
  implementation_workers = call.implementation_workers;
  status = Status.reserved;
  actual_micro_usd = none;
  usage_json = none;
  settlement_event_id = none;
  period_key = env.period now;
  created_at = now;
  updated_at = now;
}

abbrev pub is_submitted : (objective : String) → Tables → Bool
is_submitted objective t = exists (λ (s : Submission). s.objective_id == objective) t.submissions

-- The constraints of the table on a new row; the key is new.
abbrev pub is_row : Row → Bool
is_row r =
    leb 1 r.reserved_micro_usd && leb 1 r.implementation_workers && leb r.implementation_workers 2

-- A new hold.
unfoldable pub admit : Env → Contract → Clock → Call → Store → Outcome PolicyError Store
admit env policy clock call store = do
  repository ←
      or_raise (execution_repository env call.principal.user_id call.project_id store.others)
        authorized_repository_required
  u ← usage env call.principal.user_id clock.now store
  ceiling ←
      check_personal_admission policy clock.check call.principal (some u)
        call.implementation_workers
  raise_if
      (not (
        is_row (new_row env policy call repository ceiling clock.now)
        && is_submitted call.objective_id store.others))
      integrity_failed
  ok (record store {
    reservations =
        (call.objective_id, new_row env policy call repository ceiling clock.now)
        ∷ store.reservations;
  })

-- An existing hold of the same call is kept.
abbrev pub is_same : Call → Row → Bool
is_same call r =
    r.owner_user_id == call.principal.user_id
    && r.contract_sha256 == call.contract_sha256
    && is_reserved r.status

unfoldable pub reserve : Env → Contract → Clock → Call → Store → Outcome PolicyError Store
reserve env policy clock call store = do
  _ ← require_principal policy clock.gate call.principal (some "command")
  elim (lookup call.objective_id store.reservations) [
    | some r ↦ if is_same call r then ok store else err personal_reservation_conflict
    | none ↦ admit env policy clock call store
  ]
