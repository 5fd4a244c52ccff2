-- ===== src/Cancellation/Model.antt =====
-- gateway/app/objective_cancellation.py: the rows that a cancellation reads and writes, and its errors.
use magistrate.Prelude.{
  ℕ, String, Bool, true, false, ◌&&◌, ◌||◌, not, Option, none, some, List, [], ◌∷◌, ◌==◌,
  if◌then◌else◌,
}
use magistrate.Prelude.Outcome.{Outcome}
use magistrate.Prelude.Tables.{Table}

-- `ObjectiveCancellationError` by its code; the last three are exceptions that nothing handles.
pub data CancellationError : Type 0 where
  invalid_target invalid_idempotency dispatch_unobserved idempotency_conflict : CancellationError
  already_terminal not_found request_conflict store_unavailable : CancellationError
  intake_unavailable : CancellationError
  integrity_error type_error value_error : CancellationError

pub data Status : Type 0 where
  requested observed failed : Status

pub data Notification : Type 0 where
  pending delivered failed : Notification

-- A row of `objective_cancellation_requests`; its request id is the key of the table.
pub record Row : Type 0 where
  pub owner_user_id : String
  pub objective_id : String
  pub task_id : String
  pub actor_session_id : String
  pub idempotency_key : String
  pub status : Status
  pub error_code : Option String
  pub notification_status : Notification
  pub notification_attempt_count : ℕ
  pub notified_at : Option ℕ
  pub created_at : ℕ
  pub updated_at : ℕ

-- What is read of `magi_objective_submissions`, of `firstmate_execution_objectives` and of
-- `personal_resource_reservations`.
pub record Submission : Type 0 where
  pub owner_user_id : String
  pub objective_id : String
  pub task_id : String

pub record Execution : Type 0 where
  pub owner_user_id : String
  pub objective_id : String
  pub task_id : String
  pub terminal_phase : Option String

pub record Hold : Type 0 where
  pub owner_user_id : String
  pub objective_id : String

pub record Store : Type 0 where
  pub requests : Table Row
  pub submissions : List Submission
  pub executions : List Execution
  pub holds : List Hold

abbrev pub Result {ℓ} : Type ℓ → Type ℓ
Result A = Outcome CancellationError A

-- `_public`
pub record Public : Type 0 where
  pub request_id : String
  pub objective_id : String
  pub status : Status
  pub requested_at : ℕ
  pub duplicate : Bool

unfoldable pub public : (request_id : String) → Row → (duplicate : Bool) → Public
public id r duplicate = record {
  request_id = id;
  objective_id = r.objective_id;
  status = r.status;
  requested_at = r.created_at;
  duplicate = duplicate;
}

abbrev pub is_requested : Status → Bool
is_requested Status.requested = true
is_requested _ = false

abbrev pub is_failed : Status → Bool
is_failed Status.failed = true
is_failed _ = false

abbrev pub is_undelivered : Notification → Bool
is_undelivered Notification.failed = true
is_undelivered _ = false

-- The execution of an objective: the first row with the owner and the objective.
unfoldable pub find_execution : (owner objective : String) → List Execution → Option Execution
find_execution owner objective [] = none
find_execution owner objective (x ∷ xs) =
    if x.owner_user_id == owner && x.objective_id == objective
    then some x
    else find_execution owner objective xs

-- The execution that the join with a submission finds.
unfoldable pub joined_execution : Submission → List Execution → Option Execution
joined_execution s [] = none
joined_execution s (x ∷ xs) =
    if x.owner_user_id == s.owner_user_id
      && (x.objective_id == s.objective_id || x.task_id == s.task_id)
    then some x
    else joined_execution s xs

unfoldable pub find_submission : (owner objective : String) → List Submission → Option Submission
find_submission owner objective [] = none
find_submission owner objective (x ∷ xs) =
    if x.owner_user_id == owner && x.objective_id == objective
    then some x
    else find_submission owner objective xs

unfoldable pub has_hold : (owner objective : String) → List Hold → Bool
has_hold owner objective [] = false
has_hold owner objective (x ∷ xs) =
    x.owner_user_id == owner && x.objective_id == objective || has_hold owner objective xs

-- Resources are held for an objective whose execution was not observed.
unfoldable pub is_uncertain : (owner objective : String) → Store → Bool
is_uncertain owner objective store =
    has_hold owner objective store.holds
    && elim (find_execution owner objective store.executions) [ none ↦ true | some x ↦ false ]

unfoldable pub terminal_phase : (owner objective : String) → Store → Option String
terminal_phase owner objective store = elim (find_execution owner objective store.executions) [
  | none ↦ none
  | some x ↦ x.terminal_phase
]

abbrev pub with_requests : Table Row → Store → Store
with_requests rows store = record store { requests = rows }

-- The unique index: another row than this one asks for the same objective of the same owner.
abbrev pub is_active : (owner objective : String) → Row → Bool
is_active owner objective r =
    r.owner_user_id == owner && r.objective_id == objective && is_requested r.status

unfoldable pub other_active : (id owner objective : String) → Table Row → Bool
other_active id owner objective [] = false
other_active id owner objective ((j, r) ∷ rows) =
    not (j == id) && is_active owner objective r || other_active id owner objective rows
