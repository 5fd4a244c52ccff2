-- ===== src/Objective/State.antt =====
-- gateway/app/contracts.py: `ObjectiveStateContract`, and its projection from persisted facts in
-- gateway/app/deployment_mode.py.
use magistrate.Prelude.{
  ℕ, String, Bool, true, false, ◌&&◌, ◌||◌, not, Option, none, some, ◌==◌, if◌then◌else◌, ltb,
  nat_eq, is_some,
}
use magistrate.Prelude.Chars.{is_name, is_id_char}
use magistrate.Prelude.Outcome.{Outcome, ok, ◌>>◌, raise_if}

pub data State : Type 0 where
  unknown submitting queued accepted running waiting_for_input recovering : State
  succeeded failed cancelled : State

pub data Stage : Type 0 where
  unobserved submitting queued accepted running terminal : Stage

-- The first is the text "none" of the source.
pub data Cancellation : Type 0 where
  not_requested requested observed : Cancellation

pub record ObjectiveState : Type 0 where
  pub objective_id : String
  pub owner_principal_id : String
  pub revision : ℕ
  pub state : State
  pub progress_stage : Stage
  pub cancellation : Cancellation

-- `DeploymentModeError` by its code, and the error of a validation.
pub data StateError : Type 0 where
  objective_identity_conflict objective_revision_stale objective_revision_conflict : StateError
  objective_terminal_conflict objective_transition_invalid : StateError
  objective_cancellation_conflict validation_error : StateError

abbrev pub max_contract_integer : ℕ
max_contract_integer = 9_007_199_254_740_991

-- The places of the constructors, which tell them apart.
abbrev pub state_code : State → ℕ
state_code State.unknown = 0
state_code State.submitting = 1
state_code State.queued = 2
state_code State.accepted = 3
state_code State.running = 4
state_code State.waiting_for_input = 5
state_code State.recovering = 6
state_code State.succeeded = 7
state_code State.failed = 8
state_code State.cancelled = 9

-- `_PROGRESS_ORDER`
abbrev pub progress_order : Stage → ℕ
progress_order Stage.unobserved = 0
progress_order Stage.submitting = 1
progress_order Stage.queued = 2
progress_order Stage.accepted = 3
progress_order Stage.running = 4
progress_order Stage.terminal = 5

abbrev pub cancellation_code : Cancellation → ℕ
cancellation_code Cancellation.not_requested = 0
cancellation_code Cancellation.requested = 1
cancellation_code Cancellation.observed = 2

abbrev pub same_state : State → State → Bool
same_state a b = nat_eq (state_code a) (state_code b)

abbrev pub same_stage : Stage → Stage → Bool
same_stage a b = nat_eq (progress_order a) (progress_order b)

abbrev pub same_cancellation : Cancellation → Cancellation → Bool
same_cancellation a b = nat_eq (cancellation_code a) (cancellation_code b)

-- `terminal`
abbrev pub is_terminal : State → Bool
is_terminal State.succeeded = true
is_terminal State.failed = true
is_terminal State.cancelled = true
is_terminal _ = false

-- `_UNCERTAIN_STATES`
abbrev pub is_uncertain : State → Bool
is_uncertain State.unknown = true
is_uncertain State.recovering = true
is_uncertain State.waiting_for_input = true
is_uncertain _ = false

-- Whether a state that names a stage has that stage; other states name none.
abbrev pub agrees : State → Stage → Bool
agrees State.submitting stage = same_stage stage Stage.submitting
agrees State.queued stage = same_stage stage Stage.queued
agrees State.accepted stage = same_stage stage Stage.accepted
agrees State.running stage = same_stage stage Stage.running
agrees _ stage = true

abbrev pub iff : Bool → Bool → Bool
iff true b = b
iff false b = not b

-- `validate_state`
unfoldable pub is_consistent : State → Stage → Cancellation → Bool
is_consistent state stage cancellation =
    iff (same_cancellation cancellation Cancellation.observed) (same_state state State.cancelled)
    && iff (is_terminal state) (same_stage stage Stage.terminal)
    && agrees state stage

abbrev pub is_objective_char : ℕ → Bool
is_objective_char c = is_id_char c || nat_eq c b':'

-- The bounds of the fields.
unfoldable pub is_named : (objective owner : String) → Bool
is_named objective owner = is_name 127 is_objective_char objective && is_name 127 is_id_char owner

-- The construction of a contract, which validates it.
unfoldable pub validated : ObjectiveState → Outcome StateError ObjectiveState
validated s = do
  raise_if (not (is_named s.objective_id s.owner_principal_id)) validation_error
  raise_if (ltb max_contract_integer s.revision) validation_error
  raise_if (not (is_consistent s.state s.progress_stage s.cancellation)) validation_error
  ok s

-- `_TERMINAL_STATES`
unfoldable pub terminal_state : String → Option State
terminal_state phase =
    if phase == "objective.completed"
    then some State.succeeded
    else if phase == "objective.failed"
    then some State.failed
    else if phase == "objective.cancelled"
    then some State.cancelled
    else none

-- `_RUNNING_PHASES`
unfoldable pub is_running_phase : String → Bool
is_running_phase phase =
    phase == "worker.started"
    || phase == "implementation.started"
    || phase == "tests.started"
    || phase == "tests.passed"
    || phase == "tests.failed"
    || phase == "review.started"

-- The persisted facts of an objective.
pub record Facts : Type 0 where
  pub submission_status : Option String
  pub execution_phase : Option String
  pub terminal_phase : Option String
  pub waiting_for_input : Bool
  pub recovering : Bool
  pub observation_complete : Bool
  pub cancellation_requested : Bool

abbrev pub is_phase : (String → Bool) → Option String → Bool
is_phase p none = false
is_phase p (some phase) = p phase

abbrev pub terminal_of : Option String → Option State
terminal_of none = none
terminal_of (some phase) = terminal_state phase

-- The terminal phase, or the execution's phase if that is terminal.
abbrev pub ending : Facts → Option String
ending f = elim f.terminal_phase [
  | some phase ↦ some phase
  | none ↦ if is_some (terminal_of f.execution_phase) then f.execution_phase else none
]

abbrev pub is_accepted_phase : String → Bool
is_accepted_phase phase = phase == "objective.accepted"

-- The state while no terminal phase is known.
unfoldable pub open_state : Facts → State
open_state f =
    if f.recovering
    then State.recovering
    else if is_some f.execution_phase
        && not (
            is_phase is_running_phase f.execution_phase
            || is_phase is_accepted_phase f.execution_phase)
    then State.unknown
    else if f.waiting_for_input
    then State.waiting_for_input
    else if is_phase is_running_phase f.execution_phase
    then State.running
    else if is_phase is_accepted_phase f.execution_phase
    then State.accepted
    else if is_phase (λ s. s == "accepted") f.submission_status
    then State.queued
    else if is_phase (λ s. s == "submitting") f.submission_status
    then State.submitting
    else State.unknown

unfoldable pub state_of : Facts → State
state_of f = elim (terminal_of (ending f)) [
  | some state ↦ state
  | none ↦ if is_some (ending f) || not f.observation_complete then State.unknown else open_state f
]

-- How far the facts say that the objective has come.
unfoldable pub observed_stage : Facts → Stage
observed_stage f =
    if is_phase is_running_phase f.execution_phase
    then Stage.running
    else if is_phase is_accepted_phase f.execution_phase
    then Stage.accepted
    else if is_phase (λ s. s == "accepted") f.submission_status
    then Stage.queued
    else if is_phase (λ s. s == "submitting") f.submission_status
    then Stage.submitting
    else Stage.unobserved

abbrev pub cancellation_of : State → Bool → Cancellation
cancellation_of State.cancelled asked = Cancellation.observed
cancellation_of _ asked = if asked then Cancellation.requested else Cancellation.not_requested

abbrev pub projection : (objective owner : String) → (revision : ℕ) → Facts → ObjectiveState
projection objective owner revision f = record {
  objective_id = objective;
  owner_principal_id = owner;
  revision = revision;
  state = state_of f;
  progress_stage = if is_terminal (state_of f) then Stage.terminal else observed_stage f;
  cancellation = cancellation_of (state_of f) f.cancellation_requested;
}

unfoldable pub project_objective_state :
    (objective owner : String) → (revision : ℕ) → Facts → Outcome StateError ObjectiveState
project_objective_state objective owner revision f =
    validated (projection objective owner revision f)
