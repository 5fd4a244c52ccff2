-- ===== src/Objective/Persist.antt =====
-- gateway/app/structured_runtime.py: `persist_objective_state`, which projects what the tables say of an
-- objective and replaces its stored state, in the transaction of the caller. The JSON text of a stored
-- state is the state itself.
use magistrate.Prelude.{
  ◌+◌, String, Bool, true, false, ◌&&◌, ◌||◌, Option, none, some, List, [], ◌∷◌, ◌==◌,
  if◌then◌else◌,
}
use magistrate.Prelude.Outcome.{Outcome, ok, ◌>>=◌}
use magistrate.Objective.State.{
  ObjectiveState, StateError, Facts, is_running_phase, project_objective_state,
}
use magistrate.Objective.Advance.{same_contract, advance_objective_state}

-- What is read of `magi_objective_submissions`, `firstmate_execution_objectives`,
-- `firstmate_execution_events`, `firstmate_decisions` and `objective_cancellation_requests`.
pub record Submission : Type 0 where
  pub owner_user_id : String
  pub objective_id : String
  pub status : String
  pub task_id : String

pub record Execution : Type 0 where
  pub owner_user_id : String
  pub objective_id : String
  pub task_id : String
  pub terminal_phase : Option String

pub record Event : Type 0 where
  pub owner_user_id : String
  pub objective_id : String
  pub phase : String

pub record Decision : Type 0 where
  pub owner_user_id : String
  pub task_id : String
  pub state : String

pub record Request : Type 0 where
  pub owner_user_id : String
  pub objective_id : String

-- `projections` is `objective_state_projections`.
pub record Store : Type 0 where
  pub submissions : List Submission
  pub executions : List Execution
  pub events : List Event
  pub decisions : List Decision
  pub cancellations : List Request
  pub projections : List ObjectiveState

unfoldable pub first {ℓ} : {A : Type ℓ} → (A → Bool) → List A → Option A
first p [] = none
first p (x ∷ xs) = if p x then some x else first p xs

unfoldable pub any {ℓ} : {A : Type ℓ} → (A → Bool) → List A → Bool
any p [] = false
any p (x ∷ xs) = p x || any p xs

abbrev pub is_of : (owner objective : String) → ObjectiveState → Bool
is_of owner objective s = s.owner_principal_id == owner && s.objective_id == objective

-- INSERT ... ON CONFLICT ... DO UPDATE
unfoldable pub put : ObjectiveState → List ObjectiveState → List ObjectiveState
put s [] = s ∷ []
put s (x ∷ xs) = if is_of s.owner_principal_id s.objective_id x then s ∷ xs else x ∷ put s xs

-- The events' phases as one phase: work that was seen is not forgotten for a late event.
unfoldable pub phase_of : (owner objective : String) → List Event → Option String
phase_of owner objective events =
    if any
      (λ e. e.owner_user_id == owner && e.objective_id == objective && is_running_phase e.phase)
      events
    then some "worker.started"
    else if any
        (λ e.
          e.owner_user_id == owner
          && e.objective_id == objective
          && e.phase == "objective.accepted")
        events
    then some "objective.accepted"
    else none

abbrev pub is_waiting : (owner task : String) → Decision → Bool
is_waiting owner task d =
    d.owner_user_id == owner
    && d.task_id == task
    && (d.state == "pending" || d.state == "answering")

-- The facts that the tables hold, for the task of the objective.
unfoldable pub facts_of :
    (owner objective : String)
    → Option Submission
    → Option Execution
    → (task : String) → (recovering : Bool) → Store
    → Facts
facts_of owner objective submission execution task recovering store = record {
  submission_status = elim submission [ none ↦ none | some s ↦ some s.status ];
  execution_phase = phase_of owner objective store.events;
  terminal_phase = elim execution [ none ↦ none | some x ↦ x.terminal_phase ];
  waiting_for_input = any (is_waiting owner task) store.decisions;
  recovering = recovering;
  observation_complete = true;
  cancellation_requested =
      any (λ r. r.owner_user_id == owner && r.objective_id == objective) store.cancellations;
}

abbrev pub submission_of : (owner objective : String) → Store → Option Submission
submission_of owner objective store =
    first (λ s. s.owner_user_id == owner && s.objective_id == objective) store.submissions

abbrev pub execution_of : (owner objective : String) → Store → Option Execution
execution_of owner objective store =
    first (λ x. x.owner_user_id == owner && x.objective_id == objective) store.executions

abbrev pub task_of : Option Submission → Option Execution → Option String
task_of submission (some x) = some x.task_id
task_of (some s) none = some s.task_id
task_of none none = none

-- Two contracts that differ in nothing but the revision.
abbrev pub same_facts : ObjectiveState → ObjectiveState → Bool
same_facts a b = same_contract (record a { revision = 0 }) (record b { revision = 0 })

-- The stored state and the projections after it was replaced.
unfoldable pub store_state :
    (current : Option ObjectiveState)
    → (objective owner : String) → Facts
    → List ObjectiveState
    → Outcome StateError (List ObjectiveState)
store_state none objective owner f stored = do
  incoming ← project_objective_state objective owner 1 f
  ok (put incoming stored)
store_state (some current) objective owner f stored = do
  incoming ← project_objective_state objective owner (current.revision + 1) f
  next ← advance_objective_state current incoming
  ok (if same_facts next current then stored else put next stored)

unfoldable pub persist_objective_state :
    (owner objective : String) → (recovering : Bool) → Store → Outcome StateError Store
persist_objective_state owner objective recovering store =
    let submission = submission_of owner objective store in
    let execution = execution_of owner objective store in
    elim (task_of submission execution) [
      | none ↦ ok store
      | some task ↦ do
        let f = facts_of owner objective submission execution task recovering store
        stored ←
            store_state (first (is_of owner objective) store.projections) objective owner f
              store.projections
        ok (record store { projections = stored })
    ]
